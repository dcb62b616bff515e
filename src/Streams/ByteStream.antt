-- ===== src/Streams/ByteStream.antt =====
-- runtime/src/globals/streams/readable/controller.rs: `ByteStreamController`, up to `enqueue`, and
-- `PullIntoDescriptor::commit`.
pub mod Descriptors
use spiderfire.Prelude.{
  ℕ, zero, suc, ◌+◌, ◌-◌, ◌*◌, ◌/◌, ◌%◌, Bool, true, false, not, ◌&&◌, ◌||◌, List, [], ◌∷◌, ◌++◌,
  Option, none, some, if◌then◌else◌, ltb, ◌==◌, is_empty, length,
}
use spiderfire.Streams.Memory.{Memory, sub_usize}
use spiderfire.Streams.Descriptor.{
  PullIntoDescriptor, Chunk, Filling, Copied, copied, failed, fill_pull_into_descriptor, ReaderKind,
  none_kind, default_kind, byob_kind,
}
use spiderfire.Streams.System.{
  System, byte_stream_controller, State, readable, closed, errored, ByteStreamController,
  ByobRequest, CommonReader, M, Error, type_error, range_error, plain_error, Value, view,
  Settlement, read_result, settle, modify, throw, panic, pure, gets, ok, err, panicked, out_of_fuel,
  Result, ◌>>=◌, ◌>>◌, Script, then_do,
}
use spiderfire.Streams.Stream.{
  is_readable, is_closed, is_default, is_byob, is_none_kind, native_reader, set_requests,
  put_reader,
}
use spiderfire.Streams.Stream
use spiderfire.Streams.Common.{
  set_common, set_bytes, clear_source, can_close_or_enqueue, pull_if_needed, error_internal,
  invalidate_byob_request,
}

module _ (m : Memory) where
  open m use {Buffer, bytes, transfer, clone, constructs}

  abbrev pub Descriptor : Type 0
  Descriptor = PullIntoDescriptor Buffer

  abbrev pub pending : System Buffer → List Descriptor
  pending s = s.bytes.pending_descriptors

  abbrev pub set_pending : List Descriptor → System Buffer → System Buffer
  set_pending ds s = set_bytes (λ b. record b { pending_descriptors = ds }) s

  -- Replaces the front descriptor, which is there.
  abbrev pub set_front : Descriptor → System Buffer → System Buffer
  set_front d s = elim (pending s) [ [] ↦ s | _ ∷ ds ↦ set_pending (d ∷ ds) s ]

  abbrev pub pop_pending : System Buffer → System Buffer
  pop_pending s = elim (pending s) [ [] ↦ s | _ ∷ ds ↦ set_pending ds s ]

  -- `or_throw` is the `?` on an operation of the engine.
  abbrev pub or_throw : {A : Type 0} → Option A → M Buffer A
  or_throw none = throw plain_error
  or_throw (some a) = pure a

  abbrev pub front : List Descriptor → M Buffer Descriptor
  front [] = panic
  front (d ∷ ds) = pure d

  abbrev pub requests : System Buffer → List ℕ
  requests s = elim (native_reader s) [ none ↦ [] | some r ↦ r.requests ]

  abbrev pub pop_request : List ℕ → M Buffer ℕ
  pop_request [] = panic
  pop_request (p ∷ ps) = do modify (set_requests ps); pure p

  -- `construct`: the view that the request gets.
  abbrev pub construct : Descriptor → M Buffer (Value Buffer)
  construct d =
      if constructs d.buffer d.offset (d.filled / d.element) d.element
      then pure (view d.buffer d.offset (d.filled / d.element))
      else throw plain_error

  -- `PullIntoDescriptor::commit`, of a descriptor that has left the queue: the oldest request of
  -- the BYOB reader gets the view.
  unfoldable pub commit : Descriptor → State → M Buffer (Unit {0})
  commit d state = do
    buffer ← or_throw (transfer d.buffer)
    value ← construct (record d { buffer = buffer })
    waiting ← gets requests
    promise ← pop_request waiting
    modify (settle promise (read_result value (is_closed state)))

  -- `fill_pull_into_descriptor` on the queue of the controller.
  abbrev pub filling : Descriptor → System Buffer → Filling Buffer
  filling d s = record { queue = s.bytes.queue; queue_size = s.common.queue_size; descriptor = d }

  abbrev pub keep_queue : Filling Buffer → System Buffer → System Buffer
  keep_queue f s =
      set_common (λ c. record c { queue_size = f.queue_size })
        (set_bytes (λ b. record b { queue = f.queue }) s)

  abbrev pub filled_front : Bool × Copied Buffer → System Buffer → Result Bool × System Buffer
  filled_front (ready, copied f) s = (ok ready, set_front f.descriptor (keep_queue f s))
  filled_front (ready, failed f) s = (err plain_error, set_front f.descriptor (keep_queue f s))

  unfoldable pub fill_front : Descriptor → M Buffer Bool
  unfolding fill_pull_into_descriptor
  fill_front d s = filled_front (fill_pull_into_descriptor m (filling d s)) s

  -- `commit` of the front descriptor, popped from the queue.
  unfoldable pub commit_front : State → M Buffer (Unit {0})
  unfolding commit
  commit_front state = do ds ← gets pending; d ← front ds; modify pop_pending; commit d state

  -- `process_descriptors`: one unit of fuel for each round.
  unfoldable pub process_descriptors : ℕ → State → M Buffer (Unit {0})
  unfolding fill_front commit_front
  process_descriptors zero state s = (out_of_fuel, s)
  process_descriptors (suc fuel) state s = elim (pending s) [
    | [] ↦ pure tt s
    | d ∷ ds ↦
        if s.common.queue_size == 0
        then pure tt s
        else (fill_front d >>= λ shift.
              (if shift then commit_front state else pure tt) >> process_descriptors fuel state)
            s
  ]

  abbrev pub push : Chunk Buffer → System Buffer → System Buffer
  push c s =
      set_common (λ k. record k { queue_size = k.queue_size + c.2 })
        (set_bytes (λ b. record b { queue = b.queue ++ c ∷ [] }) s)

  -- `enqueue_cloned_chunk`: a copy that cannot be made makes the stream errored.
  unfoldable pub enqueue_cloned_chunk : Buffer → ℕ → ℕ → M Buffer (Unit {0})
  unfolding error_internal
  enqueue_cloned_chunk buffer offset count s = elim (clone buffer offset count) [
    | none ↦ (error_internal plain_error >> throw plain_error) s
    | some copy ↦ pure tt (push (copy, 0, count) s)
  ]

  -- `get_byob_request`: the current request, made for the front descriptor if there is none.
  abbrev pub new_request : Descriptor → ByobRequest
  new_request d = record {
    controller = true;
    view = some (d.offset + d.filled, sub_usize d.length d.filled);
  }

  unfoldable pub get_byob_request : System Buffer → Option ℕ × System Buffer
  get_byob_request s = elim s.bytes.byob_request [
    | some r ↦ (some r, s)
    | none ↦ elim (pending s) [
      | [] ↦ (none, s)
      | d ∷ ds ↦
          let i = length s.byob_requests in
          (
            some i,
            record (set_bytes (λ b. record b { byob_request = some i }) s) {
              byob_requests = s.byob_requests ++ new_request d ∷ [];
            },
          )
    ]
  ]

  -- `ByteStreamController::close`
  abbrev pub close_pending : List Descriptor → M Buffer (Unit {0})
  close_pending [] s = Stream.close (clear_source s)
  close_pending (d ∷ ds) s =
      if ltb 0 (d.filled % d.element)
      then (error_internal type_error >> throw type_error) s
      else Stream.close (clear_source s)

  unfoldable pub close : M Buffer (Unit {0})
  unfolding error_internal Stream.close
  close s =
      let s1 =
        if ltb 0 s.common.queue_size
        then set_common (λ c. record c { close_requested = true }) s
        else s in
      if can_close_or_enqueue s then close_pending (pending s1) s1 else throw type_error s

  -- `ByteStreamController::error`
  unfoldable pub error : Error → M Buffer (Unit {0})
  unfolding error_internal
  error e = error_internal e

  module _ (h : Script Buffer) where
    -- After the queue has given up a chunk.
    abbrev pub close_or_pull : M Buffer (Unit {0})
    close_or_pull s =
        if s.common.queue_size == 0 && s.common.close_requested then close s else pull_if_needed h s

    abbrev pub take_front : Chunk Buffer → List (Chunk Buffer) → System Buffer → System Buffer
    take_front c rest s =
        set_common (λ k. record k { queue_size = sub_usize k.queue_size c.2 })
          (set_bytes (λ b. record b { queue = rest }) s)

    abbrev pub pop_chunk : List (Chunk Buffer) → M Buffer (Chunk Buffer)
    pop_chunk [] = panic
    pop_chunk (c ∷ rest) = do modify (take_front c rest); pure c

    abbrev pub give : ℕ → Chunk Buffer → M Buffer (Unit {0})
    give promise (buffer, offset, count) =
        modify (settle promise (read_result (view buffer offset count) false))

    -- The loop of `enqueue` over the requests of a default reader: true when the new chunk was
    -- given to a request.
    unfoldable pub serve_requests : ℕ → Chunk Buffer → M Buffer Bool
    unfolding close pull_if_needed
    serve_requests zero c s = (out_of_fuel, s)
    serve_requests (suc fuel) c s = elim (requests s) [
      | [] ↦ pure false s
      | p ∷ ps ↦
          let s1 = set_requests ps s in
          if s1.common.queue_size == 0
          then (modify pop_pending >> give p c >> pure true) s1
          else (do old ← pop_chunk s1.bytes.queue; close_or_pull; give p old; serve_requests fuel c)
              s1
    ]

    -- The front descriptor before an enqueue: its buffer is transferred; that of a reader which
    -- has released its lock gives its bytes to the queue and goes.
    abbrev pub orphan : Descriptor → Buffer → M Buffer (Unit {0})
    orphan d buffer =
        (if ltb 0 d.filled then enqueue_cloned_chunk buffer d.offset d.length else pure tt)
        >> modify pop_pending

    abbrev pub renew_front : List Descriptor → M Buffer (Unit {0})
    renew_front [] = pure tt
    renew_front (d ∷ ds) = do
      modify invalidate_byob_request
      buffer ← or_throw (transfer d.buffer)
      modify (set_front (record d { buffer = buffer }))
      if is_none_kind d.kind then orphan d buffer else pure tt

    abbrev pub deliver : ℕ → Chunk Buffer → ReaderKind → M Buffer (Unit {0})
    deliver fuel c none_kind = modify (push c)
    deliver fuel c default_kind = do
      complete ← serve_requests fuel c
      if complete then pure tt else modify (push c)
    deliver fuel c byob_kind = do
      modify (push c)
      state ← gets (λ s. s.stream.state)
      process_descriptors fuel state

    -- `ByteStreamController::enqueue` of a view: its buffer, offset and length.
    unfoldable pub enqueue : ℕ → Buffer → ℕ → ℕ → M Buffer (Unit {0})
    unfolding invalidate_byob_request enqueue_cloned_chunk serve_requests process_descriptors
    enqueue fuel source offset count s =
        if count == 0 || length (bytes source) == 0
        then throw type_error s
        else if not (can_close_or_enqueue s)
        then throw type_error s
        else (do
          buffer ← or_throw (transfer source)
          ds ← gets pending
          renew_front ds
          kind ← gets (λ t. t.stream.reader_kind)
          deliver fuel (buffer, offset, count) kind
          pull_if_needed h)
            s
