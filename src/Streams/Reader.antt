-- ===== src/Streams/Reader.antt =====
-- runtime/src/globals/streams/readable/reader.rs: the methods of the two readers. A reader is
-- named by its place in `System.readers`.
use spiderfire.Prelude.{
  ℕ, ◌*◌, Bool, true, false, not, [], ◌∷◌, ◌++◌, Option, none, some, if◌then◌else◌, ltb, ◌==◌,
  is_empty, length, get_elem?, set,
}
use spiderfire.Streams.Memory.{Memory}
use spiderfire.Streams.Descriptor.{
  fill_pull_into_descriptor, Copied, copied, failed, none_kind, byob_kind,
}
use spiderfire.Streams.System.{
  System, State, readable, closed, errored, CommonReader, M, Error, type_error, range_error,
  plain_error, Value, undefined, error_object, read_result, resolved, rejected, settle, modify,
  throw, panic, pure, gets, ◌>>=◌, ◌>>◌, Script, new_promise,
}
use spiderfire.Streams.Stream.{set_stream, settle_all, is_readable, is_closed}
use spiderfire.Streams.Common.{pull_if_needed, error_internal}
use spiderfire.Streams.ByteStream.{
  Descriptor, pending, set_pending, or_throw, construct, filling, keep_queue, requests,
  close_or_pull,
}
use spiderfire.Streams.ByteStream
use spiderfire.Streams.Controller
use spiderfire.Streams.Readable.{stored_error}
use spiderfire.Streams.Readable

module _ (m : Memory) (h : Script m.Buffer) where
  open m use {Buffer, bytes, transfer}

  abbrev pub reader_at : ℕ → (CommonReader → M Buffer ℕ) → M Buffer ℕ
  reader_at i f s = elim (get_elem? s.readers i) [ none ↦ panic s | some r ↦ f r s ]

  abbrev pub update_reader : ℕ → (CommonReader → CommonReader) → System Buffer → System Buffer
  update_reader i f s = elim (get_elem? s.readers i) [
    | none ↦ s
    | some r ↦ record s { readers = set s.readers i (f r) }
  ]

  -- The settlements of `Request::standard`.
  abbrev pub give_chunk : ℕ → Value Buffer → M Buffer (Unit {0})
  give_chunk p v = modify (settle p (read_result v false))

  abbrev pub give_close : ℕ → Value Buffer → M Buffer (Unit {0})
  give_close p v = modify (settle p (read_result v true))

  abbrev pub give_error : ℕ → Value Buffer → M Buffer (Unit {0})
  give_error p v = modify (settle p (resolved v))

  abbrev pub disturb : System Buffer → System Buffer
  disturb s = set_stream (λ t. record t { disturbed = true }) s

  -- `DefaultReader::read_internal` on a reader that holds its stream.
  abbrev pub read_in : State → ℕ → M Buffer (Unit {0})
  read_in readable p = Controller.pull m h p
  read_in closed p = give_close p undefined
  read_in errored p = λ s. give_error p (stored_error s) s

  unfoldable pub read_internal : ℕ → CommonReader → M Buffer ℕ
  unfolding Controller.pull
  read_internal p r =
      if r.attached
      then (do modify disturb; state ← gets (λ s. s.stream.state); read_in state p; pure p)
      else (do modify (settle p (rejected (error_object type_error))); pure p)

  -- `DefaultReader::read`
  unfoldable pub read : ℕ → M Buffer ℕ
  unfolding read_internal
  read i = do p ← new_promise; reader_at i (read_internal p)

  -- A view that a script hands over: its buffer, whether that is detached, the view's offset, the
  -- number that `ArrayBufferView::len` gives and the size of an element.
  pub record View : Type 0 where
    pub buffer : Buffer
    pub detached : Bool
    pub offset : ℕ
    pub len : ℕ
    pub element : ℕ

  abbrev pub descriptor_of : View → ℕ → Buffer → Descriptor m
  descriptor_of v min buffer = record {
    buffer = buffer;
    offset = v.offset;
    length = v.len * v.element;
    filled = 0;
    min = min * v.element;
    element = v.element;
    kind = byob_kind;
  }

  abbrev pub add_request : ℕ → ℕ → System Buffer → System Buffer
  add_request i p s =
      if is_readable s.stream.state
      then update_reader i (λ r. record r { requests = r.requests ++ p ∷ [] }) s
      else s

  abbrev pub push_pending : Descriptor m → System Buffer → System Buffer
  push_pending d s = set_pending m (pending m s ++ d ∷ []) s

  -- The descriptor waits for bytes.
  abbrev pub wait_byob : ℕ → ℕ → Descriptor m → M Buffer ℕ
  wait_byob i p d = do modify (push_pending d); modify (add_request i p); pull_if_needed h; pure p

  -- After the first filling of the descriptor; `buffer` is its buffer from before.
  abbrev pub after_fill : ℕ → ℕ → Bool × Copied Buffer → M Buffer ℕ
  after_fill i p (ready, failed f) s = throw plain_error (keep_queue m f s)
  after_fill i p (true, copied f) s =
      (do
        buffer ← or_throw m (transfer f.descriptor.buffer)
        value ← construct m (record f.descriptor { buffer = buffer })
        close_or_pull m h
        give_chunk p value
        pure p)
        (keep_queue m f s)
  after_fill i p (false, copied f) s =
      if s.common.close_requested
      then (do
        λ t. pure tt (error_internal type_error t).1
        give_error p (error_object type_error)
        pure p)
          (keep_queue m f s)
      else wait_byob i p f.descriptor (keep_queue m f s)

  abbrev pub start_pull : ℕ → ℕ → Descriptor m → M Buffer ℕ
  start_pull i p d s =
      if not (is_empty (pending m s))
      then (do modify (push_pending d); modify (add_request i p); pure p) s
      else if is_closed s.stream.state
      then (do value ← construct m d; give_close p value; pure p) s
      else if ltb 0 s.common.queue_size
      then after_fill i p (fill_pull_into_descriptor m (filling m d s)) s
      else wait_byob i p d s

  abbrev pub byob_in : ℕ → ℕ → View → ℕ → State → M Buffer ℕ
  byob_in i p v min errored s = (give_error p (stored_error s) >> pure p) s
  byob_in i p v min readable s = elim (transfer v.buffer) [
    | none ↦ (give_error p (error_object plain_error) >> pure p) s
    | some buffer ↦ start_pull i p (descriptor_of v min buffer) s
  ]
  byob_in i p v min closed s = elim (transfer v.buffer) [
    | none ↦ (give_error p (error_object plain_error) >> pure p) s
    | some buffer ↦ start_pull i p (descriptor_of v min buffer) s
  ]

  -- `ByobReader::read_internal`
  unfoldable pub byob_read_internal : ℕ → ℕ → View → ℕ → M Buffer ℕ
  unfolding fill_pull_into_descriptor pull_if_needed error_internal ByteStream.close
  byob_read_internal i p v min = do
    modify disturb
    state ← gets (λ s. s.stream.state)
    byob_in i p v min state

  -- The checks of `ByobReader::read`, in order.
  abbrev pub view_error : View → ℕ → Option Error
  view_error v min =
      if v.len == 0
      then some type_error
      else if length (bytes v.buffer) == 0
      then some type_error
      else if v.detached
      then some type_error
      else if min == 0
      then some type_error
      else if ltb v.len min
      then some range_error
      else none

  abbrev pub checked_read : ℕ → ℕ → View → ℕ → Option Error → M Buffer ℕ
  checked_read i p v min none = byob_read_internal i p v min
  checked_read i p v min (some e) = do modify (settle p (rejected (error_object e))); pure p

  abbrev pub byob_read_on : ℕ → ℕ → View → ℕ → CommonReader → M Buffer ℕ
  byob_read_on i p v min r =
      if r.attached
      then checked_read i p v min (view_error v min)
      else (give_error p (error_object type_error) >> new_promise)

  -- `ByobReader::read`; `min` is 1 where the options leave it out.
  unfoldable pub byob_read : ℕ → View → ℕ → M Buffer ℕ
  unfolding byob_read_internal
  byob_read i v min = do p ← new_promise; reader_at i (byob_read_on i p v min)

  -- `CommonReader::cancel`
  abbrev pub cancel_on : Option ℕ → CommonReader → M Buffer ℕ
  cancel_on reason r =
      if r.attached
      then Readable.cancel m h reason
      else (do p ← new_promise; modify (settle p (rejected (error_object type_error))); pure p)

  unfoldable pub cancel : ℕ → Option ℕ → M Buffer ℕ
  unfolding Readable.cancel
  cancel i reason = reader_at i (cancel_on reason)

  -- The promise `closed` is rejected: a new one, if the stream is not readable.
  abbrev pub closed_promise : State → ℕ → M Buffer ℕ
  closed_promise readable p = pure p
  closed_promise closed p = new_promise
  closed_promise errored p = new_promise

  abbrev pub unlock : System Buffer → System Buffer
  unlock s = set_stream (λ t. record t { reader_kind = none_kind; reader = none }) s

  abbrev pub released : CommonReader → CommonReader
  released r = record r { attached = false; requests = [] }

  abbrev pub release_on : ℕ → CommonReader → M Buffer ℕ
  release_on i r =
      if r.attached
      then (do
        state ← gets (λ s. s.stream.state)
        p ← closed_promise state r.closed
        modify (update_reader i (λ q. record q { closed = p }))
        modify (settle p (rejected (error_object type_error)))
        modify unlock
        modify (Controller.release m h)
        modify (settle_all (resolved (error_object type_error)) r.requests)
        modify (update_reader i released)
        pure i)
      else throw type_error

  -- `CommonReader::release_lock`
  unfoldable pub release_lock : ℕ → M Buffer ℕ
  unfolding settle_all Controller.release
  release_lock i = reader_at i (release_on i)
