-- ===== src/EventLoop/Futures/Settling.antt =====
-- Collecting the finished tasks: when the loop ends, and with which results.
use mathlib.Core.List.{append_assoc, append-nil}
use spiderfire.Prelude.{
  ◌⊎◌, refl, sym, ap, Bool, true, false, ℕ, zero, suc, ◌<◌, ◌≡◌, inl, inr, List, [], ◌∷◌, ◌++◌,
  Option, none, some, arith, ◌∙◌, length, Option-cases,
}
use spiderfire.EventLoop.World.{World, Engine, Joined, fulfilled, rejected, panicked}
use spiderfire.EventLoop.Futures.{collect}

module _ (e : Engine) (w : World) where
  collect-none :
      (fuel : ℕ) (q : List ℕ) (acc : List Joined)
      → e.poll_next w q ≡ none
      → collect e w (suc fuel) q acc ≡ (some acc, q)
  unfolding collect
  collect-none fuel q acc h = rw (h, collect)

  -- A task that has finished with a result adds it; a join error drops them all.
  abbrev round : ℕ → List ℕ → List Joined → Joined → Option (List Joined) × List ℕ
  round fuel r acc panicked = (none, r)
  round fuel r acc (fulfilled v p) = collect e w fuel r (acc ++ fulfilled v p ∷ [])
  round fuel r acc (rejected v p) = collect e w fuel r (acc ++ rejected v p ∷ [])

  collect-some :
      (fuel : ℕ) (q r : List ℕ) (acc : List Joined) (j : Joined)
      → e.poll_next w q ≡ some (j, r)
      → collect e w (suc fuel) q acc ≡ round fuel r acc j
  unfolding collect
  collect-some fuel q r acc panicked h = rw (h, collect)
  collect-some fuel q r acc (fulfilled v p) h = rw (h, collect)
  collect-some fuel q r acc (rejected v p) h = rw (h, collect)

  abbrev pub is_panic : Joined → Bool
  is_panic panicked = true
  is_panic (fulfilled v p) = false
  is_panic (rejected v p) = false

  -- The results of the tasks that finish one after the other, and the tasks that are left.
  pub data Taken : List ℕ → List Joined → List ℕ → Type 0 where
    nothing : (q : List ℕ) → Taken q [] q
    one_more :
        {q r q' : List ℕ} {j : Joined} {js : List Joined}
        → e.poll_next w q ≡ some (j, r)
        → is_panic j ≡ false
        → Taken r js q'
        → Taken q (j ∷ js) q'

  -- All results of the tasks that have finished come behind those collected before; or after some
  -- of them a join error is met.
  pub Gathered : List ℕ → List Joined → Option (List Joined) × List ℕ → Type 0
  Gathered q acc res =
      ((js : List Joined) × (q' : List ℕ) × Taken q js q'
        × (e.poll_next w q' ≡ none)
        × (res ≡ (some (acc ++ js), q')))
      ⊎ ((js : List Joined) × (q' : List ℕ) × (r : List ℕ) × Taken q js q'
          × (e.poll_next w q' ≡ some (panicked, r))
          × (res ≡ (none, r)))

  extend :
      (q r : List ℕ) (acc : List Joined) (j : Joined) (res : Option (List Joined) × List ℕ)
      → e.poll_next w q ≡ some (j, r)
      → is_panic j ≡ false
      → Gathered r (acc ++ j ∷ []) res
      → Gathered q acc res
  unfolding Gathered
  extend q r acc j res p k (inl (js, q', t, stop, h)) =
      inl (
        j ∷ js,
        q',
        one_more p k t,
        stop,
        h ∙ ap (λ l. (some l, q')) (append_assoc acc (j ∷ []) js),
      )
  extend q r acc j res p k (inr (js, q', r', t, stop, h)) =
      inr (j ∷ js, q', r', one_more p k t, stop, h)

  gather :
      (fuel : ℕ) (q : List ℕ) (acc : List Joined)
      → length q < fuel
      → Gathered q acc (collect e w fuel q acc)
  unfolding Gathered
  gather zero q acc h = absurd (omega (arith, h))
  gather (suc fuel) q acc h = elim (Option-cases (e.poll_next w q)) [
    | inl stop ↦ inl (
      [],
      q,
      nothing q,
      stop,
      collect-none fuel q acc stop ∙ ap (λ l. (some l, q)) (sym (append-nil acc)),
    )
    | inr ((panicked, r), p) ↦ inr ([], q, r, nothing q, p, collect-some fuel q r acc panicked p)
    | inr ((fulfilled v o, r), p) ↦ extend q r acc (fulfilled v o) _ p refl (
        rw (collect-some fuel q r acc (fulfilled v o) p)
          (gather fuel r (acc ++ fulfilled v o ∷ []) (shorter p)))
    | inr ((rejected v o, r), p) ↦ extend q r acc (rejected v o) _ p refl (
        rw (collect-some fuel q r acc (rejected v o) p)
          (gather fuel r (acc ++ rejected v o ∷ []) (shorter p)))
  ]
    where
      shorter : {j : Joined} {r : List ℕ} → e.poll_next w q ≡ some (j, r) → length r < fuel
      shorter p = omega (arith, e.poll_next_shrinks w q p)

  -- With more fuel than there are tasks, the collection takes finished tasks one after the other:
  -- either until none has finished, and it gives all their results in order and the tasks left; or
  -- until one has a join error, and it gives no results and the tasks left after that one.
  pub collect-Gathered :
      (fuel : ℕ) (q : List ℕ) → length q < fuel → Gathered q [] (collect e w fuel q [])
  collect-Gathered fuel q h = gather fuel q [] h
