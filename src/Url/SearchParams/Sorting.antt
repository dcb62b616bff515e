-- ===== src/Url/SearchParams/Sorting.antt =====
-- `URLSearchParams::sort`.
use mathlib.Core.List.{Perm}
use mathlib.Core.List.Perm
use spiderfire.Prelude.{
  ℕ, ◌≡◌, refl, sym, ap, ◌∙◌, true, false, List, [], ◌∷◌, if◌then◌else◌, arith, inl, inr,
  Bool-cases,
}
use spiderfire.Url.SearchParams.{Strings, Pairs, le_units, insert, sort, get_all}

le_units_refl : (xs : List ℕ) → le_units xs xs ≡ true
unfolding le_units
le_units_refl [] = refl
le_units_refl (x ∷ xs) = ground (arith, le_units_refl xs)

le_units-total : (xs ys : List ℕ) → le_units xs ys ≡ false → le_units ys xs ≡ true
unfolding le_units
le_units-total [] ys h = ground (arith, h)
le_units-total (x ∷ xs) [] h = refl
le_units-total (x ∷ xs) (y ∷ ys) h = ground (arith, h, le_units-total xs ys)

true-ne-false : true ≡ false → ⊥
true-ne-false h = cc

module _ (t : Strings) where
  open t use {String, eqb, eqb_iff, encode_utf16}

  -- Each pair's name is not above the next one's, in UTF-16.
  abbrev pub Sorted : Pairs t → Type 0
  Sorted [] = Unit
  Sorted (p ∷ []) = Unit
  Sorted (p ∷ q ∷ qs) = (le_units (encode_utf16 p.0) (encode_utf16 q.0) ≡ true) × Sorted (q ∷ qs)

  insert-Sorted : (p : String × String) (ps : Pairs t) → Sorted ps → Sorted (insert t p ps)
  unfolding insert
  insert-Sorted p [] s = tt
  insert-Sorted p (q ∷ []) s = elim (Bool-cases (le_units (encode_utf16 p.0) (encode_utf16 q.0))) [
    | inl le ↦ rw le (le, tt)
    | inr gt ↦ rw gt (le_units-total (encode_utf16 p.0) (encode_utf16 q.0) gt, tt)
  ]
  insert-Sorted p (q ∷ r ∷ rs) s =
      elim (Bool-cases (le_units (encode_utf16 p.0) (encode_utf16 q.0))) [
        | inl le ↦ rw le (le, s)
        | inr gt ↦ elim (Bool-cases (le_units (encode_utf16 p.0) (encode_utf16 r.0))) [
          | inl le2 ↦
              rw (gt, le2) (le_units-total (encode_utf16 p.0) (encode_utf16 q.0) gt, (le2, s.1))
          | inr gt2 ↦ rw (gt, gt2) (s.0, rw gt2 at (insert-Sorted p (r ∷ rs) s.1))
        ]
      ]

  insert-perm : (p : String × String) (ps : Pairs t) → Perm (p ∷ ps) (insert t p ps)
  unfolding insert
  insert-perm p [] = Perm.refl _
  insert-perm p (q ∷ qs) = elim (Bool-cases (le_units (encode_utf16 p.0) (encode_utf16 q.0))) [
    | inl le ↦ rw le (Perm.refl _)
    | inr gt ↦ rw gt (Perm.trans (Perm.swap _ _ _) (Perm.cons q (insert-perm p qs)))
  ]

  get_all-insert :
      (j : String) (p : String × String) (ps : Pairs t)
      → get_all t j (insert t p ps) ≡ get_all t j (p ∷ ps)
  unfolding insert get_all
  get_all-insert j p [] = refl
  get_all-insert j p (q ∷ qs) = elim (Bool-cases (le_units (encode_utf16 p.0) (encode_utf16 q.0))) [
    | inl le ↦ rw le refl
    | inr gt ↦
        rw gt (ap (λ r. if eqb q.0 j then q.1 ∷ r else r) (get_all-insert j p qs) ∙ swapped gt)
  ]
    where
      same_units :
          (a b : String)
          → eqb a j ≡ true
          → eqb b j ≡ true
          → le_units (encode_utf16 a) (encode_utf16 b) ≡ true
      same_units a b x y =
          ap (λ c. le_units (encode_utf16 c) (encode_utf16 b)) ((eqb_iff a j).0 x)
          ∙ ap (λ c. le_units (encode_utf16 j) (encode_utf16 c)) ((eqb_iff b j).0 y)
          ∙ le_units_refl (encode_utf16 j)

      swapped :
          le_units (encode_utf16 p.0) (encode_utf16 q.0) ≡ false
          → get_all t j (q ∷ p ∷ qs) ≡ get_all t j (p ∷ q ∷ qs)
      swapped gt = elim (Bool-cases (eqb p.0 j)) [
        | inl x ↦ elim (Bool-cases (eqb q.0 j)) [
          | inl y ↦ absurd (true-ne-false (sym (same_units p.0 q.0 x y) ∙ gt))
          | inr y ↦ rw (x, y) refl
        ]
        | inr x ↦ rw x refl
      ]

  get_all-sort : (j : String) (ps : Pairs t) → get_all t j (sort t ps) ≡ get_all t j ps
  unfolding sort get_all
  get_all-sort j [] = refl
  get_all-sort j (p ∷ ps) =
      get_all-insert j p (sort t ps)
      ∙ ap (λ r. if eqb p.0 j then p.1 ∷ r else r) (get_all-sort j ps)

  sort-perm : (ps : Pairs t) → Perm ps (sort t ps)
  unfolding sort
  sort-perm [] = Perm.refl _
  sort-perm (p ∷ ps) = Perm.trans (Perm.cons p (sort-perm ps)) (insert-perm p (sort t ps))

  sorted : (ps : Pairs t) → Sorted (sort t ps)
  unfolding sort
  sorted [] = tt
  sorted (p ∷ ps) = insert-Sorted p (sort t ps) (sorted ps)

  -- Sorting gives a permutation of the pairs in which no name is above the next one in UTF-16, and
  -- each name keeps its values in their order.
  pub sort-Sorted :
      (ps : Pairs t)
      → Sorted (sort t ps)
        × Perm ps (sort t ps)
        × ((j : String) → get_all t j (sort t ps) ≡ get_all t j ps)
  sort-Sorted ps = (sorted ps, sort-perm ps, λ j. get_all-sort j ps)
