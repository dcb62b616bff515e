-- ===== src/Streams/Ending.antt =====
-- How a stream ends: closing and erroring it, and the close of a default controller.
use mathlib.Core.List.{append_assoc, append-nil}
use spiderfire.Prelude.{
  ℕ, ◌≡◌, ◌&&◌, sym, ap, ◌∙◌, true, false, not, List, [], ◌∷◌, ◌++◌, Option, none, some,
  if◌then◌else◌, is_empty,
}
use spiderfire.Streams.Descriptor.{none_kind, default_kind, byob_kind}
use spiderfire.Streams.System.{
  System, Result, ok, err, readable, closed, errored, Settlement, read_result, resolved, rejected,
  undefined, error_object, settle, CommonReader, Error, type_error, plain_error, default_controller,
}
use spiderfire.Streams.Stream.{
  native_reader, reader_of, settle_all, is_default, is_readable, set_requests, put_reader,
  set_stream, close_reader,
}
use spiderfire.Streams.Stream
use spiderfire.Streams.Common.{clear_algorithms, set_common}
use spiderfire.Streams.Default

module _ {Buffer : Type 0} where
  -- Each promise with the same settlement, in order.
  abbrev pub each : Settlement Buffer → List ℕ → List (ℕ × Settlement Buffer)
  each v [] = []
  each v (p ∷ ps) = (p, v) ∷ each v ps

  pub settle_all_lem :
      (v : Settlement Buffer) (ps : List ℕ) (s : System Buffer)
      → settle_all v ps s ≡ record s { settled = s.settled ++ each v ps }
  unfolding settle_all
  settle_all_lem v [] s = ap (λ l. record s { settled = l }) (sym (append-nil s.settled))
  settle_all_lem v (p ∷ ps) s =
      settle_all_lem v ps (settle p v s)
      ∙ ap (λ l. record s { settled = l }) (append_assoc s.settled ((p, v) ∷ []) (each v ps))

  abbrev pub closed_stream : System Buffer → System Buffer
  closed_stream s = set_stream (λ t. record t { state = closed }) s

  abbrev pub errored_stream : Error → System Buffer → System Buffer
  errored_stream e s = set_stream (λ t. record t { state = errored; error = some e }) s

  -- The system after the reader's promise `closed` is settled with `v` and its requests, which then
  -- are gone, with `w`.
  abbrev pub dismissed :
      Settlement Buffer → Settlement Buffer → CommonReader → System Buffer → System Buffer
  dismissed v w r s = record (put_reader (record r { requests = [] }) s) {
    settled = (s.settled ++ (r.closed, v) ∷ []) ++ each w r.requests;
  }

  set_requests_lem :
      (q : List ℕ) (s : System Buffer) (r : CommonReader)
      → native_reader s ≡ some r
      → set_requests q s ≡ put_reader (record r { requests = q }) s
  set_requests_lem q s r h =
      ap {B = System Buffer} (elim [ none ↦ s | some c ↦ put_reader (record c { requests = q }) s ])
        h

  dismiss_lem :
      (v w : Settlement Buffer) (r : CommonReader) (s : System Buffer)
      → native_reader s ≡ some r
      → set_requests [] (settle_all w r.requests (settle r.closed v s)) ≡ dismissed v w r s
  dismiss_lem v w r s h =
      ap (set_requests []) (settle_all_lem w r.requests (settle r.closed v s))
      ∙ set_requests_lem []
          (record s { settled = (s.settled ++ (r.closed, v) ∷ []) ++ each w r.requests }) r h

  -- `Stream.close` and `Stream.error` on a readable stream that has a reader.
  close-reader :
      (s : System Buffer) (r : CommonReader)
      → s.stream.state ≡ readable
      → native_reader s ≡ some r
      → Stream.close s ≡ (ok tt, close_reader r (closed_stream s))
  unfolding Stream.close
  close-reader s r e h =
      ap (λ st. if not (is_readable st) then (err plain_error, s) else k (native_reader s)) e
      ∙ ap k h
    where
      k : Option CommonReader → Result (Unit {0}) × System Buffer
      k none = (ok tt, closed_stream s)
      k (some q) = (ok tt, close_reader q (closed_stream s))

  pub close-unlocked :
      (s : System Buffer)
      → s.stream.state ≡ readable
      → s.stream.reader_kind ≡ none_kind
      → Stream.close s ≡ (ok tt, closed_stream s)
  unfolding Stream.close
  close-unlocked s e n =
      ap (λ st. if not (is_readable st) then (err plain_error, s) else k (native_reader s)) e
      ∙ ap (λ q. k (reader_of q s.stream.reader s.readers)) n
    where
      k : Option CommonReader → Result (Unit {0}) × System Buffer
      k none = (ok tt, closed_stream s)
      k (some q) = (ok tt, close_reader q (closed_stream s))

  -- Closing a readable stream with a default reader succeeds: the promise closed is resolved, then
  -- every request, the oldest first, with done; then no request is left, and nothing else changes
  -- but the state.
  pub close-default :
      (s : System Buffer) (r : CommonReader)
      → s.stream.state ≡ readable
      → s.stream.reader_kind ≡ default_kind
      → native_reader s ≡ some r
      → Stream.close s
        ≡ (ok tt, dismissed (resolved undefined) (read_result undefined true) r (closed_stream s))
  unfolding close_reader
  close-default s r e k h =
      close-reader s r e h
      ∙ ap (λ b. (ok tt, if is_default b then set_requests [] served else waiting)) k
      ∙ ap (λ t. (ok tt, t)) (dismiss_lem _ _ r (closed_stream s) h)
    where
      waiting : System Buffer
      waiting = settle r.closed (resolved undefined) (closed_stream s)

      served : System Buffer
      served = settle_all (read_result undefined true) r.requests waiting

  -- Closing a readable stream with a BYOB reader resolves the promise closed only: its requests
  -- stay.
  pub close-byob :
      (s : System Buffer) (r : CommonReader)
      → s.stream.state ≡ readable
      → s.stream.reader_kind ≡ byob_kind
      → native_reader s ≡ some r
      → Stream.close s ≡ (ok tt, settle r.closed (resolved undefined) (closed_stream s))
  unfolding close_reader
  close-byob s r e k h =
      close-reader s r e h
      ∙ ap (λ b. (ok tt, if is_default b then set_requests [] served else waiting)) k
    where
      waiting : System Buffer
      waiting = settle r.closed (resolved undefined) (closed_stream s)

      served : System Buffer
      served = settle_all (read_result undefined true) r.requests waiting

  -- Erroring a readable stream with a reader of either kind succeeds: the promise closed is
  -- rejected with the error, then every request, the oldest first, is resolved, not rejected, with
  -- the error object itself.
  pub error-reader :
      (x : Error) (s : System Buffer) (r : CommonReader)
      → s.stream.state ≡ readable
      → native_reader s ≡ some r
      → Stream.error x s ≡ (
        ok tt,
        dismissed (rejected (error_object x)) (resolved (error_object x)) r (errored_stream x s),
      )
  unfolding Stream.error Stream.error_reader
  error-reader x s r e h =
      ap (λ st. if not (is_readable st) then (err plain_error, s) else k (native_reader s)) e
      ∙ ap k h
      ∙ ap (λ t. (ok tt, t)) (dismiss_lem _ _ r (errored_stream x s) h)
    where
      k : Option CommonReader → Result (Unit {0}) × System Buffer
      k none = (ok tt, errored_stream x s)
      k (some q) = (ok tt, Stream.error_reader (error_object x) q (errored_stream x s))

  -- A default controller, of a readable stream with a default reader and not yet asked to close,
  -- that is closed while chunks are in its queue closes its stream at once, with the requests
  -- settled as done, and the chunks stay in its queue.
  pub close_drops :
      (s : System Buffer) (r : CommonReader) (c : ℕ × ℕ) (cs : List (ℕ × ℕ))
      → s.default.queue ≡ c ∷ cs
      → s.stream.state ≡ readable
      → s.common.close_requested ≡ false
      → s.stream.reader_kind ≡ default_kind
      → native_reader s ≡ some r
      → Default.close s ≡ (
        ok tt,
        dismissed
            (resolved undefined)
            (read_result undefined true)
            r
            (closed_stream (clear_algorithms default_controller s)),
      )
  unfolding Default.close
  close_drops s r c cs q e n k h =
      ap (λ l. if is_readable s.stream.state && not s.common.close_requested then from l else stop)
        q
      ∙ ap (λ st. if is_readable st && not s.common.close_requested then from (c ∷ cs) else stop) e
      ∙ ap (λ b. if not b then from (c ∷ cs) else stop) n
      ∙ close-default (clear_algorithms default_controller s) r e k h
    where
      from : List (ℕ × ℕ) → Result (Unit {0}) × System Buffer
      from l = Stream.close (
          clear_algorithms default_controller
            (if is_empty l then set_common (λ x. record x { close_requested = true }) s else s))

      stop : Result (Unit {0}) × System Buffer
      stop = (err type_error, s)
