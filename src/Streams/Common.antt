-- ===== src/Streams/Common.antt =====
-- runtime/src/globals/streams/readable/controller.rs: `CommonController`, the part that both
-- controllers share, with the methods of the trait `ControllerInternals`; and the parts of
-- `StreamSource` (source.rs) that they call.
use spiderfire.Prelude.{
  ℕ, Bool, true, false, not, ◌&&◌, ◌||◌, List, [], ◌∷◌, ◌++◌, Option, none, some, if◌then◌else◌,
  is_empty,
}
use spiderfire.Streams.System.{
  System, ControllerKind, default_controller, byte_stream_controller, CommonController,
  DefaultController, ByteStreamController, StreamSource, no_source, script, readable, closed,
  errored, M, Error, thrown, undefined, resolved, settle, new_promise, modify, pure, gets, ◌>>=◌,
  ◌>>◌, Script, Reaction, on_pull, ByobRequest,
}
use spiderfire.Streams.Stream.{is_readable, native_reader}
use spiderfire.Streams.Stream
use spiderfire.Prelude

abbrev pub cleared : StreamSource → StreamSource
cleared no_source = no_source
cleared (script p c) = script none none

abbrev pub untie : List ByobRequest → Option ℕ → List ByobRequest
untie rs none = rs
untie rs (some i) = Prelude.set rs i (record { controller = false; view = none })

-- `CommonController::desired_size`: `high_water_mark - queue_size`, zero or null.
pub data DesiredSize : Type 0 where
  mark_minus : ℕ → DesiredSize
  zero_size null_size : DesiredSize

module _ {Buffer : Type 0} where
  abbrev pub set_common : (CommonController → CommonController) → System Buffer → System Buffer
  set_common f s = record s { common = f s.common }

  abbrev pub set_default : (DefaultController → DefaultController) → System Buffer → System Buffer
  set_default f s = record s { default = f s.default }

  abbrev pub set_bytes :
      (ByteStreamController Buffer → ByteStreamController Buffer) → System Buffer → System Buffer
  set_bytes f s = record s { bytes = f s.bytes }

  -- `Promise::resolved`
  abbrev pub resolved_promise : M Buffer ℕ
  resolved_promise = do p ← new_promise; modify (settle p (resolved undefined)); pure p

  -- `StreamSource::clear_algorithms`
  abbrev pub clear_source : System Buffer → System Buffer
  clear_source s = set_common (λ c. record c { source = cleared c.source }) s

  -- `StreamSource::pull`
  unfoldable pub source_pull : Script Buffer → StreamSource → M Buffer (Option ℕ)
  source_pull h no_source = pure none
  source_pull h (script none c) = do p ← resolved_promise; pure (some p)
  source_pull h (script (some f) c) = do p ← h.pull f; pure (some p)

  abbrev pub settle_cancel : ℕ → Option ℕ → M Buffer ℕ
  settle_cancel p none = do modify (settle p (resolved undefined)); pure p
  settle_cancel p (some q) = pure q

  -- `StreamSource::cancel`: the promise that the caller gets; with no function to call it is left
  -- as it is.
  unfoldable pub source_cancel : Script Buffer → StreamSource → ℕ → Option ℕ → M Buffer ℕ
  source_cancel h no_source p reason = pure p
  source_cancel h (script f none) p reason = pure p
  source_cancel h (script f (some c)) p reason = do r ← h.cancel c reason; settle_cancel p r

  abbrev pub can_close_or_enqueue : System Buffer → Bool
  can_close_or_enqueue s = is_readable s.stream.state && not s.common.close_requested

  abbrev pub has_requests : System Buffer → Bool
  has_requests s = elim (native_reader s) [ none ↦ false | some r ↦ not (is_empty r.requests) ]

  unfoldable pub should_call_pull : System Buffer → Bool
  should_call_pull s =
      if not (can_close_or_enqueue s) || not s.common.started
      then false
      else has_requests s || (is_readable s.stream.state && s.common.exceeds s.common.queue_size)

  abbrev pub add_reactions : Reaction → Option ℕ → M Buffer (Unit {0})
  add_reactions k none = pure tt
  add_reactions k (some p) = modify (λ s. record s { reactions = s.reactions ++ (p, k) ∷ [] })

  -- The flag `pulling` is set before the source is called, and reset by the promise's reaction.
  unfoldable pub call_pull : Script Buffer → M Buffer (Unit {0})
  unfolding source_pull
  call_pull h = do
    modify (set_common (λ c. record c { pulling = true }))
    source ← gets (λ s. s.common.source)
    promise ← source_pull h source
    add_reactions on_pull promise

  -- `CommonController::pull_if_needed`
  unfoldable pub pull_if_needed : Script Buffer → M Buffer (Unit {0})
  unfolding should_call_pull call_pull
  pull_if_needed h s =
      if not (should_call_pull s)
      then pure tt s
      else if s.common.pulling
      then pure tt (set_common (λ c. record c { pull_again = true }) s)
      else call_pull h s

  -- `reset_queue` of each controller. `invalidate_byob_request` unties the current request.
  unfoldable pub invalidate_byob_request : System Buffer → System Buffer
  invalidate_byob_request s = record (set_bytes (λ b. record b { byob_request = none }) s) {
    byob_requests = untie s.byob_requests s.bytes.byob_request;
  }

  unfoldable pub reset_queue : ControllerKind → System Buffer → System Buffer
  unfolding invalidate_byob_request
  reset_queue default_controller s =
      set_common (λ c. record c { queue_size = 0 }) (set_default (λ d. record d { queue = [] }) s)
  reset_queue byte_stream_controller s =
      set_common (λ c. record c { queue_size = 0 })
        (set_bytes (λ b. record b { pending_descriptors = []; queue = [] })
          (invalidate_byob_request s))

  -- `clear_algorithms`: a default controller also drops its size function.
  abbrev pub clear_algorithms : ControllerKind → System Buffer → System Buffer
  clear_algorithms default_controller s =
      set_default (λ d. record d { size = none }) (clear_source s)
  clear_algorithms byte_stream_controller s = clear_source s

  -- `ControllerInternals::error_internal`
  unfoldable pub error_internal : Error → M Buffer (Unit {0})
  unfolding reset_queue Stream.error
  error_internal e s =
      if is_readable s.stream.state
      then Stream.error e
          (clear_algorithms s.stream.controller_kind (reset_queue s.stream.controller_kind s))
      else pure tt s

  -- The reactions to the promise of `start` and to that of `pull`.
  unfoldable pub start_fulfilled : Script Buffer → M Buffer (Unit {0})
  unfolding pull_if_needed
  start_fulfilled h = do modify (set_common (λ c. record c { started = true })); pull_if_needed h

  unfoldable pub pull_fulfilled : Script Buffer → M Buffer (Unit {0})
  unfolding pull_if_needed
  pull_fulfilled h s =
      let s1 = set_common (λ c. record c { pulling = false }) s in
      if s1.common.pull_again
      then pull_if_needed h (set_common (λ c. record c { pull_again = false }) s1)
      else pure tt s1

  unfoldable pub promise_rejected : ℕ → M Buffer (Unit {0})
  unfolding error_internal
  promise_rejected v = error_internal (thrown v)

  unfoldable pub desired_size : System Buffer → DesiredSize
  desired_size s = elim s.stream.state [
    | readable ↦ mark_minus s.common.queue_size
    | closed ↦ zero_size
    | errored ↦ null_size
  ]
