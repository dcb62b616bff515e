-- ===== src/Streams/ByteStream/Descriptors.antt =====
-- When the processing of pending descriptors makes no progress.
use spiderfire.Prelude.{
  ℕ, zero, suc, ◌≤◌, ◌<◌, ◌≡◌, refl, sym, ap, ◌∙◌, Bool, false, List, [], ◌∷◌, arith, ◌==◌,
  if◌then◌else◌,
}
use spiderfire.Streams.Memory.{Memory}
use spiderfire.Streams.Descriptor.{
  Filling, copied, fill_loop, fill_pull_into_descriptor, is_ready, max_copy, max_aligned,
}
use spiderfire.Streams.System.{System, State, Result, out_of_fuel, pure, ◌>>◌, then_do}
use spiderfire.Streams.ByteStream.{
  Descriptor, pending, set_pending, set_front, filling, fill_front, filled_front, commit_front,
  process_descriptors,
}

module _ (m : Memory) where
  open m use {Buffer}

  -- A full view whose least number of bytes is not below its whole elements.
  pub record IsFull (d : Descriptor m) : Type 0 where
    pub full : d.filled ≡ d.length
    pub whole : d.length ≤ d.min

  full-max_copy : (d : Descriptor m) (s : System Buffer) → IsFull d → max_copy m (filling m d s) ≡ 0
  unfolding max_copy
  full-max_copy d s f = ground arith

  full-not-ready :
      (d : Descriptor m) (s : System Buffer) → IsFull d → is_ready m (filling m d s) ≡ false
  unfolding is_ready max_aligned
  full-not-ready d s f = ground (arith, full-max_copy d s f)

  loop_zero : (f : Filling Buffer) → fill_loop m 0 f.queue f ≡ copied f
  unfolding fill_loop
  loop_zero f = by_queue f.queue
    where
      by_queue : (q : List (Buffer × ℕ × ℕ)) → fill_loop m 0 q f ≡ copied f
      by_queue [] = refl
      by_queue (c ∷ rest) = refl

  full-fill :
      (d : Descriptor m) (s : System Buffer)
      → IsFull d
      → fill_pull_into_descriptor m (filling m d s) ≡ (false, copied (filling m d s))
  unfolding fill_pull_into_descriptor
  full-fill d s f =
      rw (full-not-ready d s f, full-max_copy d s f)
        (ap (λ r. (false, r)) (loop_zero (filling m d s)))

  set_front-same :
      (d : Descriptor m) (ds : List (Descriptor m)) (s : System Buffer)
      → pending m s ≡ d ∷ ds
      → set_front m d s ≡ s
  set_front-same d ds s p =
      ap {B = System Buffer} (elim [ [] ↦ s | _ ∷ r ↦ set_pending m (d ∷ r) s ]) p
      ∙ ap (λ x. set_pending m x s) (sym p)

  -- The round leaves the whole system as it was.
  full-fill_front :
      (d : Descriptor m) (ds : List (Descriptor m)) (s : System Buffer)
      → pending m s ≡ d ∷ ds
      → IsFull d
      → fill_front m d s ≡ (Result.ok false, s)
  unfolding fill_front
  full-fill_front d ds s p f =
      ap (λ r. filled_front m r s) (full-fill d s f)
      ∙ ap (λ t. (Result.ok false, t)) (set_front-same d ds s p)

  round-full :
      (fuel : ℕ) (state : State) (d : Descriptor m) (ds : List (Descriptor m)) (s : System Buffer)
      → pending m s ≡ d ∷ ds
      → IsFull d
      → 0 < s.common.queue_size
      → process_descriptors m (suc fuel) state s ≡ process_descriptors m fuel state s
  unfolding process_descriptors
  round-full fuel state d ds s p f h =
      ap {B = Result (Unit {0}) × System Buffer}
        (elim [
          | [] ↦ (Result.ok tt, s)
          | c ∷ cs ↦
              if s.common.queue_size == 0
              then (Result.ok tt, s)
              else then_do (fill_front m c s) rest
        ])
        p
      ∙ ap (λ b. if b then (Result.ok tt, s) else then_do (fill_front m d s) rest) more
      ∙ ap (λ r. then_do r rest) (full-fill_front d ds s p f)
    where
      more : (s.common.queue_size == 0) ≡ false
      more = ground arith

      rest : Bool → System Buffer → Result (Unit {0}) × System Buffer
      rest shift =
          (if shift then commit_front m state else pure tt) >> process_descriptors m fuel state

  -- While the front descriptor is full and its least number of bytes is not below its whole
  -- length, the loop of process_descriptors never ends on a queue that is not empty: it uses up
  -- any fuel, commits nothing and changes nothing.
  pub process_descriptors-stuck :
      (fuel : ℕ) (state : State) (d : Descriptor m) (ds : List (Descriptor m)) (s : System Buffer)
      → pending m s ≡ d ∷ ds
      → IsFull d
      → 0 < s.common.queue_size
      → process_descriptors m fuel state s ≡ (out_of_fuel, s)
  process_descriptors-stuck zero state d ds s p f h = unfold process_descriptors in refl
  process_descriptors-stuck (suc fuel) state d ds s p f h =
      round-full fuel state d ds s p f h ∙ process_descriptors-stuck fuel state d ds s p f h
