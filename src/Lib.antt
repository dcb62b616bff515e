-- ===== src/Lib.antt =====
-- A model of spiderfire, a JavaScript runtime on SpiderMonkey: its event loop, its readable
-- streams, its search parameters, blobs, headers, fetches and console, translated from the Rust code.
--
-- The parts and where they are modelled. `Prelude` has Boolean tests, lists and integers over the
-- native numbers, and texts as lists of characters.
--
-- `EventLoop` is runtime/src/event_loop/. `World` is the state `EventLoop` of mod.rs, with the clock
-- and the shared flags and channels; a script that is called maps a world to a world, by the record
-- `Engine` of what SpiderMonkey and tokio do. `Macrotask`, `MacrotaskQueue` and `Macrotasks` are
-- macrotasks.rs: single macrotasks, the queue (enqueue, remove, find_next), and `Macrotask::run` with
-- `MacrotaskQueue::run_job`. `Microtasks` is microtasks.rs (enqueue, run_jobs, enqueue_promise_job),
-- `Futures` is future.rs (run_futures), `Rejections` and `Poll` are the tracker and the loop of
-- mod.rs, which calls the three queues in turn. `Timers` has the functions of
-- runtime/src/globals/timers.rs and microtasks.rs that scripts call to fill the queues, and
-- `AbortSignals` is runtime/src/globals/abort.rs, whose timeouts are macrotasks.
--
-- `Streams` is runtime/src/globals/streams/readable/. `System` is the state of one stream: the
-- stream (mod.rs), its controller (controller.rs), its readers (reader.rs), the source (source.rs)
-- and the log of what native code did to promises. `Memory` is the interface to ArrayBuffers. The
-- operations are in `Stream` (close, error), `Common` (CommonController and the source's calls),
-- `Default` (DefaultController), `Descriptor` (fill_pull_into_descriptor), `ByteStream` and `Respond`
-- (ByteStreamController), `Controller` (the calls that dispatch on the kind), `Reader` and `Readable`
-- (what scripts call). The modules below them, and `Ending`, `Locking` and `Queueing`, hold the
-- theorems.
--
-- `Url.SearchParams` is runtime/src/globals/url/search_params.rs: `URLSearchParams` as a list of
-- pairs, with the URL whose query it writes. Strings and URLs are records of operations and laws.
--
-- `Fetch` is runtime/src/globals/fetch/. `Options` has the enumerations of request/options.rs and
-- response/options.rs, `Headers` is header.rs (`Methods` what makes and changes headers, `Iteration`
-- the iterator), `Web` is body.rs and the record of what the crates url, http and hyper do,
-- `Requests` is request/mod.rs and `Responses` is response/mod.rs, `Tests` the comparisons of both.
-- Of mod.rs, `Network` is http_network_fetch, `Redirecting` http_redirect_fetch, `Tainting` the second
-- half of main_fetch, which filters the response, and `Main` the rest: main_fetch calls http_fetch,
-- which calls http_network_fetch and, for a redirect, http_redirect_fetch, which calls main_fetch.
-- `Api` is the function fetch of scripts, from the request to its promise, and `Schemes` is scheme.rs,
-- which main_fetch is given as a parameter; whether the signal ends a fetch before its end is a
-- parameter of Api. A request and its headers are changed on the way, so the
-- calls pass them on; the network is a state of its own that every request changes. A header name is
-- its lower-case characters, and `HeaderMaps` is the interface of a multimap with its laws. The
-- headers of a network error, which has no object for them, are an empty map.
--
-- `Blob` is runtime/src/globals/file/blob.rs, and `Console` is runtime/src/globals/console/mod.rs
-- (`Printing` its state and the printing, `Calls` the functions of the script's object).
--
-- State is passed explicitly. An operation that can fail gives a result and a state; what was changed
-- before an error stays changed, as in the code. An `unwrap` of nothing is the result `panicked`.
-- A `HashMap` is an association list. A `u32` id and a `u8` nesting level wrap; a `usize` subtraction
-- wraps where the code does not guard it; sums of sizes of stored bytes are not cut at 64 bits.
--
-- Fuel: a loop that scripts can prolong takes fuel, one unit for each round. `run_jobs` takes one
-- for each microtask, `run_event_loop` one for each poll, `process_descriptors`, `serve_requests` and
-- `commit_all` one for each descriptor or request. `collect` is started with one unit more than
-- there are tasks, and every round takes one task. `main_fetch` takes one for each call, and 21 are
-- enough, since 20 redirects are followed at most; the loop of `Endings::convert` takes one for each
-- byte and one more. The end of the fuel is a result of its own.
--
-- Not modelled: tee and the sources that it uses, byte and iterator sources, the installation of
-- functions on objects, tracing for the garbage collector, debug printers, conversions of script
-- values; `parse_status`, a header value that the http crate
-- refuses where http_network_fetch unwraps; the formatting of values and of the text of tables for the console;
-- and the other parts of the repository (the rest of URLs, files, modules, the command line, and the
-- bindings ion/ and ion-proc/ to the engine).
pub mod Prelude
pub mod EventLoop
pub mod Streams
pub mod Url
pub mod Blob
pub mod Fetch
pub mod Console
