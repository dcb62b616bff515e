-- ===== src/Streams/Controller.antt =====
-- runtime/src/globals/streams/readable/controller.rs: `Controller`, the methods that the stream
-- and its readers call on a controller of either kind.
use spiderfire.Prelude.{ℕ, not, List, [], ◌∷◌, ◌++◌, Option, none, some, if◌then◌else◌, ltb, ◌==◌}
use spiderfire.Streams.Memory.{Memory}
use spiderfire.Streams.Descriptor.{none_kind, default_kind}
use spiderfire.Streams.System.{
  System, default_controller, byte_stream_controller, M, type_error, plain_error, modify, throw,
  pure, gets, ◌>>=◌, ◌>>◌, Script, new_promise,
}
use spiderfire.Streams.Stream.{is_default, native_reader, set_requests}
use spiderfire.Streams.Common.{
  reset_queue, source_cancel, clear_source, error_internal, pull_if_needed,
}
use spiderfire.Streams.Default
use spiderfire.Streams.ByteStream.{
  Descriptor, pending, set_pending, pop_chunk, close_or_pull, give, close,
}

module _ (m : Memory) (h : Script m.Buffer) where
  open m use {Buffer}

  -- `Controller::cancel`: the promise that the caller gets.
  unfoldable pub cancel : Option ℕ → M Buffer ℕ
  unfolding reset_queue source_cancel
  cancel reason = do
    modify (λ s. reset_queue s.stream.controller_kind s)
    promise ← new_promise
    source ← gets (λ s. s.common.source)
    result ← source_cancel h source promise reason
    modify clear_source
    pure result

  abbrev pub auto_descriptor : Buffer → ℕ → Descriptor m
  auto_descriptor buffer size = record {
    buffer = buffer;
    offset = 0;
    length = size;
    filled = 0;
    min = 1;
    element = 1;
    kind = default_kind;
  }

  abbrev pub add_request : ℕ → System Buffer → System Buffer
  add_request promise s =
      if is_default s.stream.reader_kind
      then elim (native_reader s) [
        | none ↦ s
        | some r ↦ set_requests (r.requests ++ promise ∷ []) s
      ]
      else s

  abbrev pub wait_for_bytes : ℕ → M Buffer (Unit {0})
  wait_for_bytes promise = modify (add_request promise) >> pull_if_needed h

  -- A buffer that cannot be allocated makes the stream errored, and the request is dropped.
  abbrev pub allocate : ℕ → ℕ → M Buffer (Unit {0})
  allocate promise size s = if size == 0 then wait_for_bytes promise s else elim (m.new size) [
    | none ↦ error_internal plain_error s
    | some buffer ↦
        wait_for_bytes promise (set_pending m (pending m s ++ auto_descriptor buffer size ∷ []) s)
  ]

  unfoldable pub pull_bytes : ℕ → M Buffer (Unit {0})
  unfolding close pull_if_needed error_internal
  pull_bytes promise s =
      if not (is_default s.stream.reader_kind)
      then throw type_error s
      else if ltb 0 s.common.queue_size
      then (do c ← pop_chunk m h s.bytes.queue; close_or_pull m h; give m h promise c) s
      else allocate promise s.bytes.auto_allocate_chunk_size s

  -- `Controller::pull`
  unfoldable pub pull : ℕ → M Buffer (Unit {0})
  unfolding Default.pull pull_bytes
  pull promise s = elim s.stream.controller_kind [
    | default_controller ↦ Default.pull h promise s
    | byte_stream_controller ↦ pull_bytes promise s
  ]

  abbrev pub keep_first : List (Descriptor m) → List (Descriptor m)
  keep_first [] = []
  keep_first (d ∷ ds) = record d { kind = none_kind } ∷ []

  -- `Controller::release`: of the descriptors of a byte stream only the first stays, for no reader.
  unfoldable pub release : System Buffer → System Buffer
  release s = elim s.stream.controller_kind [
    | default_controller ↦ s
    | byte_stream_controller ↦ set_pending m (keep_first (pending m s)) s
  ]
