-- ===== src/EventLoop/Rejections/Tracking.antt =====
-- The tracker keeps exactly the promises that are still unhandled.
use mathlib.Core.List.{Perm, perm_middle, append-nil}
use mathlib.Core.List.Perm
use spiderfire.Prelude.{
  ℕ, zero, suc, ◌≡◌, refl, ◌≢◌, ◌⊎◌, inl, inr, List, [], ◌∷◌, ◌++◌, none, some, arith, All, subst,
  Option-cases, get_elem?,
}
use spiderfire.EventLoop.Rejections.{
  unhandled, handled, position, last, init, swap_out, swap_remove_back, track,
}

position-get : (p : ℕ) (l : List ℕ) (i : ℕ) → position p l ≡ some i → get_elem? l i ≡ some p
unfolding position
position-get p [] i h = cc
position-get p (x ∷ xs) zero h = ground (arith, Option-cases (position p xs))
position-get p (x ∷ xs) (suc i) h =
    ground (arith, Option-cases (position p xs), position-get p xs i)

position-none : (p : ℕ) (l : List ℕ) → position p l ≡ none → All (λ x. x ≢ p) l
unfolding position
position-none p [] h = tt
position-none p (x ∷ xs) h = ground (arith, Option-cases (position p xs), position-none p xs)

perm-last : (x : ℕ) (xs : List ℕ) → Perm (x ∷ xs) (last x xs ∷ init (x ∷ xs))
perm-last x [] = Perm.refl _
perm-last x (y ∷ ys) = Perm.trans (Perm.cons x (perm-last y ys)) (Perm.swap _ _ _)

swap_out-perm : (i p : ℕ) (l : List ℕ) → get_elem? l i ≡ some p → Perm l (p ∷ swap_out i l)
swap_out-perm i p [] h = cc
swap_out-perm zero p (x ∷ []) h = Perm.cons' (ground arith) Perm.rfl
swap_out-perm zero p (x ∷ y ∷ ys) h = Perm.cons' (ground arith) (perm-last y ys)
swap_out-perm (suc i) p (x ∷ []) h = cc
swap_out-perm (suc zero) p (x ∷ y ∷ ys) h =
    Perm.trans (Perm.cons x (swap_out-perm zero p (y ∷ ys) h)) (Perm.swap _ _ _)
swap_out-perm (suc (suc i)) p (x ∷ y ∷ ys) h =
    Perm.trans (Perm.cons x (swap_out-perm (suc i) p (y ∷ ys) h)) (Perm.swap _ _ _)

-- Taking out the element at an index loses no other element.
swap_remove_back-perm :
    (i p : ℕ) (l : List ℕ) → get_elem? l i ≡ some p → Perm l (p ∷ swap_remove_back i l)
unfolding swap_remove_back
swap_remove_back-perm i p l h = rw (h, swap_remove_back) (swap_out-perm i p l h)

-- A promise that gains a handler loses one entry of the queue of unhandled rejections and no other
-- promise does; a promise with no entry leaves the queue as it was.
pub track-handled :
    (p : ℕ) (l : List ℕ)
    → (All (λ x. x ≢ p) l × (track handled p l ≡ l)) ⊎ Perm l (p ∷ track handled p l)
unfolding track
track-handled p l = elim (Option-cases (position p l)) [
  | inl e ↦ inl (position-none p l e, rw e)
  | inr (i, e) ↦ inr (rw e (swap_remove_back-perm i p l (position-get p l i e)))
]

-- A rejection that is handled before the next poll is forgotten: the queue holds the promises that
-- it held before, in some order.
pub track-handled-unhandled : (p : ℕ) (l : List ℕ) → Perm (track handled p (track unhandled p l)) l
unfolding track
track-handled-unhandled p l = elim (track-handled p (l ++ p ∷ [])) [
  | inl (a, e) ↦ absurd (All-last l a)
  | inr q ↦ cancel q
]
  where
    All-last : (xs : List ℕ) → All (λ x. x ≢ p) (xs ++ p ∷ []) → ⊥
    All-last [] a = a.0 refl
    All-last (x ∷ xs) a = All-last xs a.1

    to_front : Perm (l ++ p ∷ []) (p ∷ l)
    to_front = subst (λ t. Perm (l ++ p ∷ []) (p ∷ t)) (append-nil l) (perm_middle l [])

    cancel :
        Perm (l ++ p ∷ []) (p ∷ track handled p (l ++ p ∷ []))
        → Perm (track handled p (l ++ p ∷ [])) l
    cancel q = Perm.cons_inv (Perm.trans (Perm.symm q) to_front)
