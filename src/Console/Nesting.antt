-- ===== src/Console/Nesting.antt =====
-- The indentation that groups leave.
use spiderfire.Prelude.{
  ℕ, zero, suc, ◌+◌, ◌≤◌, ◌≡◌, Bool, true, false, List, [], ◌∷◌, map, Option, none, some, arith,
  length,
}
use spiderfire.Console.Printing.{Console, Formats}
use spiderfire.Console.Calls.{Call, call, calls, and_then}
use spiderfire.Console.Indents.{
  Kind, opens, closes, clears, stays, shift, kind, Indented, call-Indented,
}

-- Every group that is opened is closed, no other is, and nothing clears; the number is of the groups
-- that are open.
abbrev pub is_closed : ℕ → List Kind → Bool
is_closed zero [] = true
is_closed (suc n) [] = false
is_closed n (opens ∷ ks) = is_closed (suc n) ks
is_closed zero (closes ∷ ks) = false
is_closed (suc n) (closes ∷ ks) = is_closed n ks
is_closed n (clears ∷ ks) = false
is_closed n (stays ∷ ks) = is_closed n ks

module _ (f : Formats) where
  -- The indentation when n groups are closed.
  unfoldable pub Closed : ℕ → ℕ → Option Console → Type 0
  Closed n i none = Unit
  Closed n i (some c) = c.indents + n ≡ i

  Continues : List (Call f) → Type 0
  Continues xs =
      (n : ℕ) (c : Console)
      → is_closed n (map (kind f) xs) ≡ true
      → n ≤ c.indents
      → c.indents + length xs ≤ 65535
      → Closed n c.indents (calls f xs c)

  no_truth : {A : Type 0} → false ≡ true → A
  no_truth h = absurd (clash h)
    where
      clash : false ≡ true → ⊥
      clash e = cc

  weaken-Closed :
      (n m i j : ℕ) (o : Option Console)
      → Closed n i o
      → ((k : ℕ) → k + n ≡ i → k + m ≡ j)
      → Closed m j o
  unfolding Closed
  weaken-Closed n m i j none h g = tt
  weaken-Closed n m i j (some c) h g = g c.indents h

  step-Closed :
      (xs : List (Call f)) (k : Kind) (n i : ℕ) (o : Option Console)
      → Continues xs
      → Indented f (shift k i) o
      → is_closed n (k ∷ map (kind f) xs) ≡ true
      → n ≤ i
      → i + suc (length xs) ≤ 65535
      → Closed n i (and_then f o (calls f xs))
  unfolding Closed Indented Continues
  step-Closed xs k n i none r s h a b = tt
  step-Closed xs opens n i (some c) r s h a b =
      weaken-Closed (suc n) n c.indents i (calls f xs c)
        (r (suc n) c h (omega (arith, s, a, b)) (omega (arith, s, b)))
        (λ d e. omega (arith, e, s, b))
  step-Closed xs closes zero i (some c) r s h a b = no_truth h
  step-Closed xs closes (suc n) i (some c) r s h a b =
      weaken-Closed n (suc n) c.indents i (calls f xs c)
        (r n c h (omega (arith, s, a)) (omega (arith, s, a, b))) (λ d e. omega (arith, e, s, a))
  step-Closed xs clears n i (some c) r s h a b = no_truth h
  step-Closed xs stays n i (some c) r s h a b =
      weaken-Closed n n c.indents i (calls f xs c)
        (r n c h (omega (arith, s, a)) (omega (arith, s, b))) (λ d e. omega (arith, e, s))

  calls-Continues : (xs : List (Call f)) → Continues xs
  unfolding Continues Closed
  calls-Continues [] zero c h a b = omega arith
  calls-Continues [] (suc n) c h a b = no_truth h
  calls-Continues (x ∷ xs) n c h a b =
      step-Closed xs (kind f x) n c.indents (call f x c) (calls-Continues xs) (call-Indented f x c)
        h a b

  -- Calls of the console that close every group that they open, close no other and do not clear,
  -- and that are no more than the indentation has room for below 65535, leave the indentation as
  -- it was if none of them panics.
  pub calls-Closed :
      (xs : List (Call f)) (c : Console)
      → is_closed 0 (map (kind f) xs) ≡ true
      → c.indents + length xs ≤ 65535
      → Closed 0 c.indents (calls f xs c)
  unfolding Continues
  calls-Closed xs c h b = calls-Continues xs 0 c h (omega arith) b
