-- ===== src/Streams/Locking.antt =====
-- The lock of a stream: taking it, what it refuses, and giving it back.
use spiderfire.Prelude.{
  ℕ, zero, suc, ◌≡◌, refl, ap, ◌∙◌, Bool, true, false, not, List, [], ◌∷◌, ◌++◌, Option, none, some,
  arith, if◌then◌else◌, get_elem?, set, length,
}
use spiderfire.Streams.Memory.{Memory}
use spiderfire.Streams.Descriptor.{ReaderKind, none_kind, default_kind}
use spiderfire.Streams.System.{
  System, Result, ok, err, State, readable, closed, errored, Settlement, resolved, rejected,
  error_object, settle, CommonReader, type_error, default_controller, byte_stream_controller,
  Script, panicked, ◌>>=◌, ◌>>◌, then_do, new_promise, modify, pure, gets, throw,
  ByteStreamController, ControllerKind, StreamSource, no_source, script, M,
}
use spiderfire.Streams.Stream.{native_reader, is_none_kind, set_stream, settle_all}
use spiderfire.Streams.Common.{reset_queue, source_cancel, invalidate_byob_request}
use spiderfire.Streams.Readable.{
  get_locked, get_reader, new_default_reader, lock, cancel, cancel_in, settle_closed,
}
use spiderfire.Streams.Reader
use spiderfire.Streams.Controller
use spiderfire.Streams.ByteStream.{set_pending, pending}
use spiderfire.Streams.Stream
use spiderfire.Streams.Ending.{each, settle_all_lem, close-unlocked, closed_stream}

get_elem?-append {ℓ} :
    {A : Type ℓ} (xs : List A) (x : A) → get_elem? (xs ++ x ∷ []) (length xs) ≡ some x
get_elem?-append [] x = refl
get_elem?-append (y ∷ ys) x = get_elem?-append ys x

get_elem?-set {ℓ} :
    {A : Type ℓ} (xs : List A) (i : ℕ) (x y : A)
    → get_elem? xs i ≡ some y
    → get_elem? (set xs i x) i ≡ some x
get_elem?-set [] i x y e = ground (arith, e)
get_elem?-set (z ∷ xs) zero x y e = refl
get_elem?-set (z ∷ xs) (suc i) x y e = get_elem?-set xs i x y e

module _ {Buffer : Type 0} where
  -- A reader that is made for a stream is the stream's reader: it holds the lock, has no request,
  -- and its promise `closed` is a new one.
  abbrev pub Holds : ℕ → ReaderKind → System Buffer → System Buffer → Type 0
  Holds i kind s s' =
      (i ≡ length s.readers)
      × (s'.stream.reader_kind ≡ kind)
      × (get_elem? s'.readers i
          ≡ some (record { attached = true; requests = []; closed = s.next_promise }))
      × (s'.stream.reader ≡ some i)

  -- A stream that is locked gives out no reader, whatever the mode, and does not change.
  pub get_reader-locked :
      (mode : Option Bool) (s : System Buffer)
      → get_locked s ≡ true
      → get_reader mode s ≡ (err type_error, s)
  unfolding get_reader
  get_reader-locked mode s h = rw h refl

  settled_readers :
      (p : ℕ) (st : State) (s : System Buffer) → (settle_closed p st s).readers ≡ s.readers
  settled_readers p readable s = refl
  settled_readers p closed s = refl
  settled_readers p errored s = refl

  pub lock_lem :
      (kind : ReaderKind) (s : System Buffer)
      → ((lock kind s).0 ≡ ok (length s.readers)) × Holds (length s.readers) kind s (lock kind s).1
  unfolding lock
  lock_lem kind s =
      rw
        (settled_readers s.next_promise s.stream.state
          (record s { next_promise = suc s.next_promise }))
        (refl, (refl, refl, get_elem?-append s.readers _, refl))

  -- On a stream that is not locked, get_reader with no mode gives a new default reader that holds
  -- the lock, and a second call, of any mode, is refused and changes nothing.
  pub get_reader-get_reader :
      (s : System Buffer) (mode : Option Bool)
      → s.stream.reader_kind ≡ none_kind
      → let (r, s') = get_reader none s in
        (r ≡ ok (length s.readers))
        × Holds (length s.readers) default_kind s s'
        × (get_reader mode s' ≡ (err type_error, s'))
  unfolding get_reader new_default_reader
  get_reader-get_reader s mode k =
      let (fst, held) = lock_lem default_kind s in
      let opened =
        ap (λ q. if not (is_none_kind q) then (err type_error, s) else new_default_reader s) k
        ∙ ap (λ q. if not (is_none_kind q) then (err type_error, s) else lock default_kind s) k in
      let relocked =
        get_reader-locked mode (lock default_kind s).1 (ap (λ q. not (is_none_kind q)) held.1) in
      rw opened (fst, held, relocked)

module _ (m : Memory) (h : Script m.Buffer) where
  open m use {Buffer}

  cancel-attached :
      (i : ℕ) (reason : Option ℕ) (s : System Buffer) (r : CommonReader)
      → get_elem? s.readers i ≡ some r
      → r.attached ≡ true
      → get_locked s ≡ true
      → Reader.cancel m h i reason s ≡ (err type_error, s)
  unfolding Reader.cancel cancel
  cancel-attached i reason s r e a l =
      ap {B = Result ℕ × System Buffer}
        (elim [ none ↦ (panicked, s) | some c ↦ Reader.cancel_on m h reason c s ]) e
      ∙ ap (λ b. (if b then cancel m h reason else refused) s) a
      ∙ ap (λ b. if b then (err type_error, s) else cancel_unlocked) l
    where
      refused : M Buffer ℕ
      refused = do p ← new_promise; modify (settle p (rejected (error_object type_error))); pure p

      cancel_unlocked : Result ℕ × System Buffer
      cancel_unlocked =
          cancel_in m h s.stream.state reason (set_stream (λ t. record t { disturbed = true }) s)

  -- A reader that get_reader, with no mode, gives for a stream that is not locked cannot cancel
  -- the stream: its cancel, made right after, is refused with a TypeError and changes nothing.
  pub cancel-get_reader :
      (reason : Option ℕ) (s : System Buffer)
      → s.stream.reader_kind ≡ none_kind
      → let (r, s') = get_reader none s in
        (r ≡ ok (length s.readers))
        × (Reader.cancel m h (length s.readers) reason s' ≡ (err type_error, s'))
  cancel-get_reader reason s k =
      let (fst, held, again) = get_reader-get_reader s none k in
      (
        fst,
        cancel-attached (length s.readers) reason (get_reader none s).1 _ held.2 refl
            (ap (λ q. not (is_none_kind q)) held.1),
      )

  -- The source has no function to call on cancellation.
  abbrev pub silent : StreamSource → Bool
  silent no_source = true
  silent (script f none) = true
  silent (script f (some c)) = false

  source_cancel-silent :
      (source : StreamSource) (p : ℕ) (reason : Option ℕ)
      → silent source ≡ true
      → source_cancel h source p reason ≡ pure p
  unfolding source_cancel
  source_cancel-silent no_source p reason e = refl
  source_cancel-silent (script f none) p reason e = refl
  source_cancel-silent (script f (some c)) p reason e = ground arith

  reset_queue-settled :
      (k : ControllerKind) (s : System Buffer)
      → ((reset_queue k s).settled ≡ s.settled)
        × ((reset_queue k s).next_promise ≡ s.next_promise)
        × ((reset_queue k s).common.source ≡ s.common.source)
  unfolding reset_queue invalidate_byob_request
  reset_queue-settled default_controller s = (refl, refl, refl)
  reset_queue-settled byte_stream_controller s = (refl, refl, refl)

  controller-cancel-silent :
      (reason : Option ℕ) (s : System Buffer)
      → silent s.common.source ≡ true
      → ((Controller.cancel m h reason s).0 ≡ ok s.next_promise)
        × ((Controller.cancel m h reason s).1.settled ≡ s.settled)
  unfolding Controller.cancel
  controller-cancel-silent reason s e =
      let (a, b, c) = reset_queue-settled s.stream.controller_kind s in
      rw (c, b, source_cancel-silent s.common.source s.next_promise reason e) (refl, a)

  -- Cancelling a readable stream that is not locked, whose source has no cancel function, gives a
  -- new promise that is left as it is, while nothing is settled.
  pub cancel-silent :
      (reason : Option ℕ) (s : System Buffer)
      → s.stream.state ≡ readable
      → s.stream.reader_kind ≡ none_kind
      → silent s.common.source ≡ true
      → ((cancel m h reason s).0 ≡ ok s.next_promise)
        × ((cancel m h reason s).1.settled ≡ s.settled)
  unfolding cancel Stream.close
  cancel-silent reason s e k n =
      let chain =
        ap (λ q. if not (is_none_kind q) then (err type_error, s) else inside s.stream.state) k
        ∙ ap inside e
        ∙ ap (λ r. then_do r (λ _. Controller.cancel m h reason)) (close-unlocked s1 e k) in
      rw chain (controller-cancel-silent reason (closed_stream s1) n)
    where
      s1 : System Buffer
      s1 = set_stream (λ t. record t { disturbed = true }) s

      inside : State → Result ℕ × System Buffer
      inside st = cancel_in m h st reason s1

  -- A read by a BYOB reader that has released its stream settles one promise, and hands out
  -- another, new one, which it does not settle.
  pub byob_read-released :
      (i : ℕ) (v : Reader.View m h) (min : ℕ) (s : System Buffer) (r : CommonReader)
      → get_elem? s.readers i ≡ some r
      → r.attached ≡ false
      → Reader.byob_read m h i v min s ≡ (
        ok (suc s.next_promise),
        record s {
          settled = s.settled ++ (s.next_promise, resolved (error_object type_error)) ∷ [];
          next_promise = suc (suc s.next_promise);
        },
      )
  unfolding Reader.byob_read
  byob_read-released i v min s r e a =
      ap {B = Result ℕ × System Buffer}
        (elim [
          | none ↦ (panicked, s1)
          | some c ↦ Reader.byob_read_on m h i s.next_promise v min c s1
        ])
        e
      ∙ ap (λ b. (if b then checked else told) s1) a
    where
      s1 : System Buffer
      s1 = record s { next_promise = suc s.next_promise }

      checked : M Buffer ℕ
      checked = Reader.checked_read m h i s.next_promise v min (Reader.view_error m h v min)

      told : M Buffer ℕ
      told = Reader.give_error m h s.next_promise (error_object type_error) >> new_promise

  update_lem :
      (i : ℕ) (f : CommonReader → CommonReader) (s : System Buffer) (r : CommonReader)
      → get_elem? s.readers i ≡ some r
      → Reader.update_reader m h i f s ≡ record s { readers = set s.readers i (f r) }
  update_lem i f s r e =
      ap {B = System Buffer}
        (elim [ none ↦ s | some c ↦ record s { readers = set s.readers i (f c) } ]) e

  -- The controller's part of a release touches its own descriptors only.
  release-keeps :
      (s : System Buffer)
      → (b : ByteStreamController Buffer) × (Controller.release m h s ≡ record s { bytes = b })
  unfolding Controller.release
  release-keeps s = by_kind s.stream.controller_kind
    where
      bytes_after : ControllerKind → ByteStreamController Buffer
      bytes_after default_controller = s.bytes
      bytes_after byte_stream_controller = record s.bytes {
        pending_descriptors = Controller.keep_first m h s.bytes.pending_descriptors;
      }

      by_kind :
          (k : ControllerKind)
          → (b : ByteStreamController Buffer) × (elim k as (λ x. System Buffer) [
            | default_controller ↦ s
            | byte_stream_controller ↦ set_pending m (Controller.keep_first m h (pending m s)) s
          ]
              ≡ record s { bytes = b })
      by_kind default_controller = (s.bytes, refl)
      by_kind byte_stream_controller = (bytes_after byte_stream_controller, refl)

  -- Releasing the lock of a readable stream: the stream is unlocked, the reader has no stream and
  -- no request; its promise closed is rejected, then every request, the oldest first, is resolved,
  -- not rejected, with the TypeError.
  pub release_lock_lem :
      (i : ℕ) (s : System Buffer) (r : CommonReader)
      → get_elem? s.readers i ≡ some r
      → r.attached ≡ true
      → s.stream.state ≡ readable
      → ((Reader.release_lock m h i s).0 ≡ ok i)
        × (get_locked (Reader.release_lock m h i s).1 ≡ false)
        × (get_elem? (Reader.release_lock m h i s).1.readers i
            ≡ some (record { attached = false; requests = []; closed = r.closed }))
        × ((Reader.release_lock m h i s).1.settled
            ≡ (s.settled ++ (r.closed, rejected (error_object type_error)) ∷ [])
              ++ each (resolved (error_object type_error)) r.requests)
  unfolding Reader.release_lock Controller.release
  release_lock_lem i s r e a st =
      let (b, kept) = release-keeps s2 in
      let chain =
        ap {B = Result ℕ × System Buffer}
          (elim [ none ↦ (panicked, s) | some c ↦ Reader.release_on m h i c s ]) e
        ∙ ap (λ x. (if x then (gets (λ t. t.stream.state) >>= from_state) else throw type_error) s)
            a
        ∙ ap (λ q. from_state q s) st
        ∙ ap (λ x. finish (Controller.release m h (unlocked x)))
            (update_lem i (λ q. record q { closed = r.closed }) s r e)
        ∙ ap finish kept
        ∙ ap last (settle_all_lem gone r.requests (record s2 { bytes = b }))
        ∙ ap (λ x. (ok i, x))
            (update_lem i (Reader.released m h) (settled_system b) r
              (get_elem?-set s.readers i r r e)) in
      rw chain (
        refl,
        refl,
        get_elem?-set (set s.readers i r) i (Reader.released m h r) r
            (get_elem?-set s.readers i r r e),
        refl,
      )
    where
      gone : Settlement Buffer
      gone = resolved (error_object type_error)

      unlocked : System Buffer → System Buffer
      unlocked x = Reader.unlock m h (settle r.closed (rejected (error_object type_error)) x)

      s2 : System Buffer
      s2 = unlocked (record s { readers = set s.readers i r })

      settled_system : ByteStreamController Buffer → System Buffer
      settled_system b = record s2 { bytes = b; settled = s2.settled ++ each gone r.requests }

      last : System Buffer → Result ℕ × System Buffer
      last x = (ok i, Reader.update_reader m h i (Reader.released m h) x)

      finish : System Buffer → Result ℕ × System Buffer
      finish x = last (settle_all gone r.requests x)

      from_state : State → M Buffer ℕ
      from_state q = do
        p ← Reader.closed_promise m h q r.closed
        modify (Reader.update_reader m h i (λ c. record c { closed = p }))
        modify (settle p (rejected (error_object type_error)))
        modify (Reader.unlock m h)
        modify (Controller.release m h)
        modify (settle_all gone r.requests)
        modify (Reader.update_reader m h i (Reader.released m h))
        pure i
