-- ===== src/EventLoop/Microtasks/Draining.antt =====
-- Draining the microtask queue: completion, termination, and what a throwing microtask leaves.
use spiderfire.Prelude.{
  ℕ, zero, suc, ◌<◌, ◌≡◌, refl, ◌≢◌, ◌⊎◌, inl, inr, true, false, List, [], ◌∷◌, Option, none, arith,
  ap, ◌∙◌, sym, subst,
}
use spiderfire.EventLoop.World.{
  World, Engine, Outcome, ok, err, out_of_fuel, after, ◌>>◌, Microtask,
}
use spiderfire.EventLoop.Microtasks.{
  run, drain, run_jobs, queued, is_draining, set_draining, set_queue, drained,
}

-- The cases of a finished call, with its equation.
pub Outcome-cases :
    (r : Outcome × World)
    → ((w : World) × (r ≡ (ok, w)))
      ⊎ ((e : Option ℕ) × (w : World) × (r ≡ (err e, w)))
      ⊎ ((w : World) × (r ≡ (out_of_fuel, w)))
Outcome-cases (ok, w) = inl (w, refl)
Outcome-cases (err e, w) = inr (inl (e, w, refl))
Outcome-cases (out_of_fuel, w) = inr (inr (w, refl))

List-cases {ℓ} : {A : Type ℓ} (l : List A) → (l ≡ []) ⊎ ((x : A) × (r : List A) × (l ≡ x ∷ r))
List-cases [] = inl refl
List-cases (x ∷ r) = inr (x, r, refl)

pub fuel-ne-ok : {w w' : World} → ◌≡◌ {A = Outcome × World} (out_of_fuel, w) (ok, w') → ⊥
fuel-ne-ok h = cc (ap (λ r. r.0) h)

pub err-ne-ok : {x : Option ℕ} {w w' : World} → ◌≡◌ {A = Outcome × World} (err x, w) (ok, w') → ⊥
err-ne-ok h = cc (ap (λ r. r.0) h)

ok-ne-err : {x : Option ℕ} {w w' : World} → ◌≡◌ {A = Outcome × World} (ok, w) (err x, w') → ⊥
ok-ne-err h = cc (ap (λ r. r.0) h)

module _ (e : Engine) where
  drain-zero : (w : World) → drain e zero w ≡ (out_of_fuel, w)
  unfolding drain
  drain-zero w = refl

  -- One round of the loop, on an empty queue and on any other.
  drain-empty : (fuel : ℕ) (w : World) → queued w ≡ [] → drain e (suc fuel) w ≡ (ok, w)
  unfolding drain
  drain-empty fuel w h = rw (h, drain)

  drain-cons :
      (fuel : ℕ) (w : World) (m : Microtask) (rest : List Microtask)
      → queued w ≡ m ∷ rest
      → drain e (suc fuel) w ≡ (run e m >> drain e fuel) (set_queue rest w)
  unfolding drain
  drain-cons fuel w m rest h =
      ap {B = Outcome × World}
        (elim [ [] ↦ (ok, w) | m' ∷ rest' ↦ (run e m' >> drain e fuel) (set_queue rest' w) ]) h

  drain-round :
      (fuel : ℕ) (w v : World) (m : Microtask) (rest : List Microtask) (o : Outcome)
      → queued w ≡ m ∷ rest
      → run e m (set_queue rest w) ≡ (o, v)
      → drain e (suc fuel) w ≡ after (o, v) (drain e fuel)
  drain-round fuel w v m rest o q r =
      drain-cons fuel w m rest q ∙ ap (λ x. after x (drain e fuel)) r

  -- A drain that ends well leaves no microtask.
  drain-ok : (fuel : ℕ) (w w' : World) → drain e fuel w ≡ (ok, w') → queued w' ≡ []
  drain-ok zero w w' h = absurd (fuel-ne-ok (sym (drain-zero w) ∙ h))
  drain-ok (suc fuel) w w' h = elim (List-cases (queued w)) [
    | inl empty ↦
        subst (λ v. queued v ≡ []) (ap (λ r. r.1) (sym (drain-empty fuel w empty) ∙ h)) empty
    | inr (m, rest, q) ↦ elim (Outcome-cases (run e m (set_queue rest w))) [
      | inl (v, r) ↦ drain-ok fuel v w' (sym (drain-round fuel w v m rest ok q r) ∙ h)
      | inr (inl (x, v, r)) ↦ absurd (err-ne-ok (sym (drain-round fuel w v m rest (err x) q r) ∙ h))
      | inr (inr (v, r)) ↦
          absurd (fuel-ne-ok (sym (drain-round fuel w v m rest out_of_fuel q r) ∙ h))
    ]
  ]

  -- In the worlds of an invariant, each microtask returns, keeps it and lowers a measure.
  abbrev pub Calm : (World → Type 0) → (World → ℕ) → Type 0
  Calm P measure =
      (w : World) (m : Microtask) (rest : List Microtask)
      → queued w ≡ m ∷ rest
      → P w
      → (v : World) × (run e m (set_queue rest w) ≡ (ok, v)) × (P v × (measure v < measure w))

  drain_total :
      (P : World → Type 0) (measure : World → ℕ)
      → Calm P measure
      → (fuel : ℕ) (w : World) → P w
      → measure w < fuel
      → (v : World) × (drain e fuel w ≡ (ok, v))
  drain_total P measure calm zero w p h = absurd (omega arith)
  drain_total P measure calm (suc fuel) w p h = elim (List-cases (queued w)) [
    | inl empty ↦ (w, drain-empty fuel w empty)
    | inr (m, rest, q) ↦
        let (v, r, (good, falls)) = calm w m rest q p in
        let (u, later) = drain_total P measure calm fuel v good (omega (arith, falls, h)) in
        (u, drain-round fuel w v m rest ok q r ∙ later)
  ]

  -- No call changes the flag of the queue: a nested `run_jobs` finds it set and does nothing.
  abbrev pub KeepsDraining : Type 0
  KeepsDraining = (w : World) (m : Microtask) → is_draining (run e m w).1 ≡ is_draining w

  set_queue-draining :
      (r : List Microtask) (w : World) → is_draining (set_queue r w) ≡ is_draining w
  set_queue-draining r w = ground arith

  -- However a drain ends, the flag is as it was.
  drain-draining :
      KeepsDraining → (fuel : ℕ) (w : World) → is_draining (drain e fuel w).1 ≡ is_draining w
  drain-draining keeps zero w = rw (drain-zero w)
  drain-draining keeps (suc fuel) w = elim (List-cases (queued w)) [
    | inl empty ↦ rw (drain-empty fuel w empty)
    | inr (m, rest, q) ↦ elim (Outcome-cases (run e m (set_queue rest w))) [
      | inl (v, r) ↦
          rw (drain-round fuel w v m rest ok q r) (drain-draining keeps fuel v ∙ kept m rest v ok r)
      | inr (inl (x, v, r)) ↦ rw (drain-round fuel w v m rest (err x) q r) (kept m rest v (err x) r)
      | inr (inr (v, r)) ↦
          rw (drain-round fuel w v m rest out_of_fuel q r) (kept m rest v out_of_fuel r)
    ]
  ]
    where
      kept :
          (m : Microtask) (rest : List Microtask) (v : World) (o : Outcome)
          → run e m (set_queue rest w) ≡ (o, v)
          → is_draining v ≡ is_draining w
      kept m rest v o r =
          ap (λ x. is_draining x.1) (sym r) ∙ keeps (set_queue rest w) m ∙ set_queue-draining rest w

  run_jobs-open :
      (fuel : ℕ) (w : World)
      → is_draining w ≡ false
      → run_jobs e fuel w ≡ after (drain e fuel (set_draining true w)) (λ v. (ok, drained v))
  unfolding run_jobs
  run_jobs-open fuel w d = rw d

  nested_jobs : (fuel : ℕ) (w : World) → is_draining w ≡ true → run_jobs e fuel w ≡ (ok, w)
  unfolding run_jobs
  nested_jobs fuel w d = rw d

  drained-draining : (w : World) → is_draining (drained w) ≡ false
  drained-draining w = ground arith

  drained-queued : (w : World) → queued (drained w) ≡ queued w
  drained-queued w = ground arith

  set_draining-draining :
      (w : World) → w.microtasks ≢ none → is_draining (set_draining true w) ≡ true
  set_draining-draining w h = ground arith

  -- When run_jobs ends well on a queue that was not being drained, no microtask is left, those
  -- enqueued on the way included, and the queue can be drained again.
  pub run_jobs-ok :
      (fuel : ℕ) (w w' : World)
      → is_draining w ≡ false
      → run_jobs e fuel w ≡ (ok, w')
      → (queued w' ≡ []) × (is_draining w' ≡ false)
  run_jobs-ok fuel w w' d h = elim (Outcome-cases (drain e fuel (set_draining true w))) [
    | inl (v, r) ↦
        let here : drained v ≡ w' = ap (λ x. x.1) (sym (closed v ok r) ∙ h) in
        (
          subst (λ x. queued x ≡ []) here (drained-queued v ∙ drain-ok fuel _ v r),
          subst (λ x. is_draining x ≡ false) here (drained-draining v),
        )
    | inr (inl (x, v, r)) ↦ absurd (err-ne-ok (sym (closed v (err x) r) ∙ h))
    | inr (inr (v, r)) ↦ absurd (fuel-ne-ok (sym (closed v out_of_fuel r) ∙ h))
  ]
    where
      closed :
          (v : World) (o : Outcome)
          → drain e fuel (set_draining true w) ≡ (o, v)
          → run_jobs e fuel w ≡ after (o, v) (λ x. (ok, drained x))
      closed v o r = run_jobs-open fuel w d ∙ ap (λ x. after x (λ y. (ok, drained y))) r

  -- On a queue that is not being drained, if every microtask that is taken off the queue in a
  -- world of an invariant returns without an error, keeps the invariant and lowers a measure, and
  -- the fuel is above the measure, then run_jobs ends without an error, no microtask is left, and
  -- the queue can be drained again.
  pub run_jobs_total :
      (P : World → Type 0) (measure : World → ℕ)
      → Calm P measure
      → (fuel : ℕ) (w : World) → is_draining w ≡ false
      → P (set_draining true w)
      → measure (set_draining true w) < fuel
      → (w' : World) × (run_jobs e fuel w ≡ (ok, w'))
        × ((queued w' ≡ []) × (is_draining w' ≡ false))
  run_jobs_total P measure calm fuel w d p h =
      let (v, r) = drain_total P measure calm fuel (set_draining true w) p h in
      let ends : run_jobs e fuel w ≡ (ok, drained v) =
        run_jobs-open fuel w d ∙ ap (λ x. after x (λ y. (ok, drained y))) r in
      (drained v, ends, run_jobs-ok fuel w (drained v) d ends)

  -- Where no call changes the draining flag: after a microtask has thrown the flag stays set, and
  -- from then on run_jobs returns at once and leaves every microtask in the queue.
  pub run_jobs-err :
      KeepsDraining
      → (fuel : ℕ) (w w' : World) (report : Option ℕ) → is_draining w ≡ false
      → w.microtasks ≢ none
      → run_jobs e fuel w ≡ (err report, w')
      → (is_draining w' ≡ true) × ((later : ℕ) → run_jobs e later w' ≡ (ok, w'))
  run_jobs-err keeps fuel w w' report d some_queue h =
      elim (Outcome-cases (drain e fuel (set_draining true w))) [
        | inl (v, r) ↦ absurd (ok-ne-err (sym (closed v ok r) ∙ h))
        | inr (inl (x, v, r)) ↦
            let stuck = stays v (err x) r (ap (λ y. y.1) (sym (closed v (err x) r) ∙ h)) in
            (stuck, λ later. nested_jobs later w' stuck)
        | inr (inr (v, r)) ↦
            let stuck = stays v out_of_fuel r (ap (λ y. y.1) (sym (closed v out_of_fuel r) ∙ h)) in
            (stuck, λ later. nested_jobs later w' stuck)
      ]
    where
      closed :
          (v : World) (o : Outcome)
          → drain e fuel (set_draining true w) ≡ (o, v)
          → run_jobs e fuel w ≡ after (o, v) (λ x. (ok, drained x))
      closed v o r = run_jobs-open fuel w d ∙ ap (λ x. after x (λ y. (ok, drained y))) r

      stays :
          (v : World) (o : Outcome)
          → drain e fuel (set_draining true w) ≡ (o, v)
          → v ≡ w'
          → is_draining w' ≡ true
      stays v o r p =
          ap is_draining (sym p)
          ∙ ap (λ x. is_draining x.1) (sym r)
          ∙ drain-draining keeps fuel (set_draining true w)
          ∙ set_draining-draining w some_queue
