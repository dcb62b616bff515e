-- ===== src/Streams/Respond.antt =====
-- runtime/src/globals/streams/readable/controller.rs: `respond` and `respond_with_new_view` of
-- `ByteStreamController`, and the methods of `ByobRequest` that call them.
pub mod Checks
use spiderfire.Prelude.{
  ℕ, zero, suc, ◌+◌, ◌-◌, ◌%◌, ◌^◌, Bool, true, false, not, ◌&&◌, ◌||◌, List, [], ◌∷◌, Option, none,
  some, if◌then◌else◌, ltb, ◌==◌, is_empty, length, get_elem?, set,
}
use spiderfire.Streams.Memory.{Memory}
use spiderfire.Streams.Descriptor.{ReaderKind, none_kind, default_kind, byob_kind}
use spiderfire.Streams.System.{
  System, State, readable, closed, errored, ByobRequest, M, Error, type_error, range_error,
  plain_error, modify, throw, panic, pure, gets, ok, err, out_of_fuel, Result, ◌>>=◌, ◌>>◌, Script,
}
use spiderfire.Streams.Stream.{is_byob}
use spiderfire.Streams.Common.{pull_if_needed, invalidate_byob_request}
use spiderfire.Streams.ByteStream.{
  Descriptor, pending, set_front, pop_pending, or_throw, front, requests, commit, commit_front,
  process_descriptors, enqueue_cloned_chunk,
}

module _ (m : Memory) where
  open m use {Buffer, bytes, transfer}

  -- The checks of `respond`, by the state of the stream. The sum is of `usize`, and wraps.
  abbrev pub check_written : State → ℕ → Descriptor m → M Buffer (Unit {0})
  check_written readable written d =
      if written == 0
      then throw type_error
      else if ltb d.length ((d.filled + written) % 2 ^ 64)
      then throw range_error
      else pure tt
  check_written closed written d = if written == 0 then pure tt else throw type_error
  check_written errored written d = throw type_error

  abbrev pub process_for_byob : ℕ → State → M Buffer (Unit {0})
  process_for_byob fuel state s =
      if is_byob s.stream.reader_kind then process_descriptors m fuel state s else pure tt s

  -- The descriptor of a reader that has released its lock.
  abbrev pub respond_released : ℕ → State → Descriptor m → M Buffer (Unit {0})
  respond_released fuel state d =
      (if ltb 0 d.filled then enqueue_cloned_chunk m d.buffer d.offset d.length else pure tt)
      >> process_for_byob fuel state

  -- The bytes above whole elements go back to the queue.
  abbrev pub split_remainder : Descriptor m → ℕ → M Buffer (Descriptor m)
  split_remainder d remainder =
      if ltb 0 remainder
      then (do
        enqueue_cloned_chunk m d.buffer (d.offset + d.filled - remainder) remainder
        pure (record d { filled = d.filled - remainder }))
      else pure d

  abbrev pub commit_for_byob : ℕ → State → Descriptor m → M Buffer (Unit {0})
  commit_for_byob fuel state d s =
      if is_byob s.stream.reader_kind
      then (commit m d state >> process_descriptors m fuel state) s
      else pure tt s

  -- The descriptor of a reader, once it holds the bytes that it asked for.
  abbrev pub respond_filled : ℕ → State → Descriptor m → M Buffer (Unit {0})
  respond_filled fuel state d = do
    modify (pop_pending m)
    d' ← split_remainder d (d.filled % d.element)
    commit_for_byob fuel state d'

  -- The loop over the requests of a BYOB reader when the stream is closed.
  unfoldable pub commit_all : ℕ → M Buffer (Unit {0})
  unfolding commit_front
  commit_all zero s = (out_of_fuel, s)
  commit_all (suc fuel) s =
      if is_empty (requests m s) then pure tt s else (commit_front m closed >> commit_all fuel) s

  module _ (h : Script Buffer) where
    -- After the bytes are counted. A reader's descriptor that is still short of its least number of
    -- bytes waits on, and the source is not asked for more.
    abbrev pub respond_readable : ℕ → Descriptor m → M Buffer (Unit {0})
    respond_readable fuel d = elim d.kind [
      | none_kind ↦ respond_released fuel readable d >> pull_if_needed h
      | default_kind ↦
          if ltb d.filled d.min then pure tt else respond_filled fuel readable d >> pull_if_needed h
      | byob_kind ↦
          if ltb d.filled d.min then pure tt else respond_filled fuel readable d >> pull_if_needed h
    ]

    abbrev pub respond_closed : ℕ → M Buffer (Unit {0})
    respond_closed fuel s =
        ((λ t. if is_byob t.stream.reader_kind then commit_all fuel t else modify (pop_pending m) t)
            >> pull_if_needed h)
          s

    abbrev pub respond_in : ℕ → State → ℕ → Descriptor m → M Buffer (Unit {0})
    respond_in fuel readable written d = do
      let d' = record d { filled = (d.filled + written) % 2 ^ 64 }
      modify (set_front m d')
      respond_readable fuel d'
    respond_in fuel closed written d = respond_closed fuel
    respond_in fuel errored written d = panic

    -- `ByteStreamController::respond`
    unfoldable pub respond : ℕ → ℕ → M Buffer (Unit {0})
    unfolding pull_if_needed commit_all commit process_descriptors enqueue_cloned_chunk
    respond fuel written = do
      ds ← gets (pending m)
      d ← front m ds
      state ← gets (λ s. s.stream.state)
      check_written state written d
      buffer ← or_throw m (transfer d.buffer)
      let d' = record d { buffer = buffer }
      modify (set_front m d')
      modify invalidate_byob_request
      respond_in fuel state written d'

    abbrev pub check_view : State → ℕ → M Buffer (Unit {0})
    check_view readable count = if count == 0 then throw type_error else pure tt
    check_view closed count = if count == 0 then pure tt else throw type_error
    check_view errored count = panic

    abbrev pub check_range : Descriptor m → ℕ → ℕ → M Buffer (Unit {0})
    check_range d offset count =
        if not (d.offset + d.filled == offset)
        then throw range_error
        else if not (d.length == count)
        then throw range_error
        else if ltb d.length (d.filled + count)
        then throw range_error
        else pure tt

    -- `respond_with_new_view` of a view, given by its buffer, whether that is detached, its offset
    -- and its length.
    unfoldable pub respond_with_new_view : ℕ → Buffer → Bool → ℕ → ℕ → M Buffer (Unit {0})
    unfolding respond
    respond_with_new_view fuel source detached offset count = do
      if detached then throw type_error else pure tt
      state ← gets (λ s. s.stream.state)
      check_view state count
      ds ← gets (pending m)
      d ← front m ds
      check_range d offset count
      buffer ← or_throw m (transfer source)
      modify (set_front m (record d { buffer = buffer }))
      respond fuel count

    abbrev pub set_request : ℕ → ByobRequest → System Buffer → System Buffer
    set_request i r s = record s { byob_requests = set s.byob_requests i r }

    -- `ByobRequest::respond` on the request `i`: it is untied from its controller first. `size` is
    -- the length of the buffer of its view, `detached` says whether that is detached.
    abbrev pub respond_request : ℕ → ℕ → Bool → ℕ → ByobRequest → ℕ → M Buffer (Unit {0})
    respond_request fuel size detached i r written =
        if r.controller
        then (do
          modify (set_request i (record r { controller = false }))
          elim r.view [
            | none ↦ panic
            | some (offset, count) ↦
                if count == 0 || size == 0
                then throw type_error
                else if detached
                then throw type_error
                else respond fuel written
          ])
        else throw type_error

    unfoldable pub request_respond : ℕ → ℕ → Bool → ℕ → ℕ → M Buffer (Unit {0})
    unfolding respond
    request_respond fuel size detached i written s = elim (get_elem? s.byob_requests i) [
      | none ↦ panic s
      | some r ↦ respond_request fuel size detached i r written s
    ]
