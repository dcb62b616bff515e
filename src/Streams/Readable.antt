-- ===== src/Streams/Readable.antt =====
-- runtime/src/globals/streams/readable/mod.rs: the methods of `ReadableStream` that scripts call;
-- and from reader.rs the making of readers.
use spiderfire.Prelude.{
  ℕ, Bool, true, false, not, [], ◌∷◌, ◌++◌, Option, none, some, if◌then◌else◌, ◌==◌, length,
}
use spiderfire.Streams.Memory.{Memory}
use spiderfire.Streams.Descriptor.{ReaderKind, none_kind, default_kind, byob_kind}
use spiderfire.Streams.System.{
  System, ControllerKind, default_controller, byte_stream_controller, State, readable, closed,
  errored, StreamSource, no_source, script, M, Error, type_error, range_error, Value, undefined,
  error_object, resolved, rejected, settle, modify, throw, pure, gets, ok, err, Result, ◌>>=◌, ◌>>◌,
  Script, new_promise, on_start,
}
use spiderfire.Streams.Stream.{set_stream, is_none_kind}
use spiderfire.Streams.Stream
use spiderfire.Streams.Common.{resolved_promise}
use spiderfire.Streams.Controller

-- `UnderlyingSource`: the `start` function's outcome, the other functions, the type (`some true` is
-- "bytes") and the chunk size.
pub record UnderlyingSource : Type 0 where
  pub start : Option (Result ℕ)
  pub pull : Option ℕ
  pub cancel : Option ℕ
  pub ty : Option Bool
  pub auto_allocate_chunk_size : Option ℕ

-- A high water mark is known by the sizes that it exceeds; NaN exceeds none.
pub data Mark : Type 0 where
  nan : Mark
  negative non_negative : (ℕ → Bool) → Mark

abbrev pub exceeds : Mark → ℕ → Bool
exceeds nan n = false
exceeds (negative f) n = f n
exceeds (non_negative f) n = f n

pub record QueueingStrategy : Type 0 where
  pub high_water_mark : Option Mark
  pub size : Option ℕ

abbrev pub or_else {ℓ} : {A : Type ℓ} → Option A → A → A
or_else none a = a
or_else (some b) a = b

module _ (Buffer : Type 0) where
  -- `ReadableStream::new` around a new controller.
  abbrev pub initial : ControllerKind → StreamSource → (ℕ → Bool) → Option ℕ → ℕ → System Buffer
  initial kind source mark size auto = record {
    stream = record {
      controller_kind = kind;
      reader_kind = none_kind;
      reader = none;
      state = readable;
      disturbed = false;
      error = none;
    };
    common = record {
      source = source;
      started = false;
      pulling = false;
      pull_again = false;
      close_requested = false;
      exceeds = mark;
      queue_size = 0;
    };
    default = record { size = size; queue = [] };
    bytes = record {
      auto_allocate_chunk_size = auto;
      byob_request = none;
      pending_descriptors = [];
      queue = [];
    };
    readers = [];
    byob_requests = [];
    settled = [];
    reactions = [];
    next_promise = 0;
  }

  -- `CommonController::start`: an exception of the `start` function is that of the constructor.
  abbrev pub started : Option (Result ℕ) → System Buffer → Result (System Buffer)
  started none s =
      let (r, s') = resolved_promise s in
      ok (record s' { reactions = (s.next_promise, on_start) ∷ [] })
  started (some (ok v)) s =
      let (r, s') = resolved_promise s in
      ok (record s' { reactions = (s.next_promise, on_start) ∷ [] })
  started (some (err e)) s = err e
  started (some Result.panicked) s = Result.panicked
  started (some Result.out_of_fuel) s = Result.out_of_fuel

  abbrev pub to_native : UnderlyingSource → StreamSource
  to_native u = script u.pull u.cancel

  abbrev pub construct_default : Option UnderlyingSource → QueueingStrategy → Result (System Buffer)
  construct_default none q = started none (
      initial default_controller no_source
        (exceeds (or_else q.high_water_mark (non_negative (λ n. n == 0)))) q.size 0)
  construct_default (some u) q = started u.start (
      initial default_controller (script u.pull u.cancel)
        (exceeds (or_else q.high_water_mark (non_negative (λ n. n == 0)))) q.size 0)

  abbrev pub bad_mark : Option Mark → Bool
  bad_mark none = false
  bad_mark (some nan) = true
  bad_mark (some (negative f)) = true
  bad_mark (some (non_negative f)) = false

  abbrev pub bad_chunk_size : Option ℕ → Bool
  bad_chunk_size none = false
  bad_chunk_size (some n) = n == 0

  abbrev pub has_size : Option ℕ → Bool
  has_size none = false
  has_size (some f) = true

  abbrev pub construct_bytes : UnderlyingSource → QueueingStrategy → Result (System Buffer)
  construct_bytes u q =
      if has_size q.size
      then err range_error
      else if bad_mark q.high_water_mark
      then err range_error
      else if bad_chunk_size u.auto_allocate_chunk_size
      then err type_error
      else started u.start (
          initial byte_stream_controller (script u.pull u.cancel)
            (exceeds (or_else q.high_water_mark (non_negative (λ n. false)))) none
            (or_else u.auto_allocate_chunk_size 0))

  abbrev pub by_type : Option Bool → UnderlyingSource → QueueingStrategy → Result (System Buffer)
  by_type none u q = construct_default (some u) q
  by_type (some true) u q = construct_bytes u q
  by_type (some false) u q = err type_error

  -- `ReadableStream::constructor`
  unfoldable pub constructor : Option UnderlyingSource → QueueingStrategy → Result (System Buffer)
  constructor none q = construct_default none q
  constructor (some u) q = by_type u.ty u q

module _ {Buffer : Type 0} where
  abbrev pub get_locked : System Buffer → Bool
  get_locked s = not (is_none_kind s.stream.reader_kind)

  -- `stored_error`
  abbrev pub stored_error : System Buffer → Value Buffer
  stored_error s = elim s.stream.error [ none ↦ undefined | some e ↦ error_object e ]

  abbrev pub settle_closed : ℕ → State → System Buffer → System Buffer
  settle_closed p readable s = s
  settle_closed p closed s = settle p (resolved undefined) s
  settle_closed p errored s = settle p (rejected (stored_error s)) s

  -- `CommonReader::new`, with the reader as the stream's one.
  unfoldable pub lock : ReaderKind → M Buffer ℕ
  lock kind = do
    p ← new_promise
    modify (λ s. settle_closed p s.stream.state s)
    i ← gets (λ s. length s.readers)
    modify (λ s. record s {
      readers = s.readers ++ record { attached = true; requests = []; closed = p } ∷ [];
      stream = record s.stream { reader_kind = kind; reader = some i };
    })
    pure i

  -- `DefaultReader::new` and `ByobReader::new`
  unfoldable pub new_default_reader : M Buffer ℕ
  unfolding lock
  new_default_reader s = if get_locked s then throw type_error s else lock default_kind s

  unfoldable pub new_byob_reader : M Buffer ℕ
  unfolding lock
  new_byob_reader s = if get_locked s then throw type_error s else elim s.stream.controller_kind [
    | default_controller ↦ throw type_error s
    | byte_stream_controller ↦ lock byob_kind s
  ]

  -- `ReadableStream::get_reader`; of the mode only whether it is "byob" counts.
  abbrev pub by_mode : Option Bool → M Buffer ℕ
  by_mode none = new_default_reader
  by_mode (some true) = new_byob_reader
  by_mode (some false) = throw type_error

  unfoldable pub get_reader : Option Bool → M Buffer ℕ
  unfolding new_default_reader new_byob_reader
  get_reader mode s = if get_locked s then throw type_error s else by_mode mode s

  abbrev pub null_or : Option Error → Value Buffer
  null_or none = Value.null
  null_or (some e) = error_object e

module _ (m : Memory) (h : Script m.Buffer) where
  open m use {Buffer}

  abbrev pub cancel_in : State → Option ℕ → M Buffer ℕ
  cancel_in readable reason = do Stream.close; Controller.cancel m h reason
  cancel_in closed reason = resolved_promise
  cancel_in errored reason = do
    p ← new_promise
    modify (λ s. settle p (rejected (null_or s.stream.error)) s)
    pure p

  -- `ReadableStream::cancel`
  unfoldable pub cancel : Option ℕ → M Buffer ℕ
  unfolding Stream.close Controller.cancel
  cancel reason s =
      if get_locked s
      then throw type_error s
      else cancel_in s.stream.state reason (set_stream (λ t. record t { disturbed = true }) s)
