-- ===== src/Url/SearchParams/Setting.antt =====
-- `URLSearchParams::set` against a direct definition, and what it leaves to be found.
use spiderfire.Prelude.{
  ℕ, suc, ◌+◌, ◌-◌, ◌≤◌, ◌≡◌, refl, sym, ap, ◌∙◌, true, false, not, [], ◌∷◌, Option, none, some,
  if◌then◌else◌, arith, retain, inl, inr, Bool-cases,
}
use spiderfire.Url.SearchParams.{Strings, Pairs, scan, set, place, get_all}

module _ (t : Strings) where
  open t use {String, eqb, eqb_iff}

  -- The first pair with the key gets the value, the others with the key go; a new key goes to the
  -- end.
  abbrev pub replace : String → String → Pairs t → Pairs t
  replace key value [] = (key, value) ∷ []
  replace key value ((k, v) ∷ rest) =
      let later = replace key value rest in
      if eqb k key then (k, value) ∷ retain (λ p. not (eqb p.0 key)) rest else (k, v) ∷ later

  scan-found :
      (key : String) (i j : ℕ) (ps : Pairs t)
      → scan t key i (some j) ps ≡ (retain (λ p. not (eqb p.0 key)) ps, some j)
  unfolding scan
  scan-found key i j [] = refl
  scan-found key i j ((k, v) ∷ rest) =
      ap (λ r. (if not (eqb k key) then (k, v) ∷ r.0 else r.0, r.1)) (scan-found key i j rest)

  -- The value is placed where the scan, which began to count at `i`, found the key.
  abbrev pub placed : String → String → ℕ → Pairs t × Option ℕ → Pairs t
  placed key value i (ps, none) = place t key value none ps
  placed key value i (ps, some j) = place t key value (some (j - i)) ps

  scan-le : (key : String) (i j : ℕ) (ps : Pairs t) → (scan t key i none ps).1 ≡ some j → i ≤ j
  unfolding scan
  scan-le key i j [] h = ground (arith, h)
  scan-le key i j ((k, v) ∷ rest) h = elim (Bool-cases (eqb k key)) [
    | inl hit ↦
        let g : some i ≡ some j = sym (ap (λ r. r.1) (scan-found key i i rest)) ∙ (rw hit at h) in
        ground (arith, g)
    | inr miss ↦ let g = rw miss at h in omega (arith, scan-le key (i + 1) j rest g)
  ]

  placed-cons :
      (key value : String) (i : ℕ) (p : String × String) (r : Pairs t × Option ℕ)
      → ((j : ℕ) → r.1 ≡ some j → i + 1 ≤ j)
      → placed key value i (p ∷ r.0, r.1) ≡ p ∷ placed key value (i + 1) r
  placed-cons key value i p (ps, none) h = refl
  placed-cons key value i p (ps, some j) h =
      let above = h j refl in let e : j - i ≡ suc (j - (i + 1)) = omega arith in rw e refl

  placed-scan :
      (key value : String) (i : ℕ) (ps : Pairs t)
      → placed key value i (scan t key i none ps) ≡ replace key value ps
  unfolding scan
  placed-scan key value i [] = refl
  placed-scan key value i ((k, v) ∷ rest) = elim (Bool-cases (eqb k key)) [
    | inl hit ↦ rw (hit, scan-found key i i rest) (let z : i - i ≡ 0 = omega arith in rw z refl)
    | inr miss ↦ rw miss (
        placed-cons key value i (k, v) (scan t key (i + 1) none rest)
          (λ j. scan-le key (i + 1) j rest)
        ∙ ap (◌∷◌ (k, v)) (placed-scan key value (i + 1) rest))
  ]

  placed_zero :
      (key value : String) (r : Pairs t × Option ℕ)
      → place t key value r.1 r.0 ≡ placed key value 0 r
  placed_zero key value (ps, none) = refl
  placed_zero key value (ps, some j) = let e : j - 0 ≡ j = omega arith in rw e refl

  -- For every list of pairs, set, which looks for the key while it drops pairs and then writes at
  -- the index it found, does what the direct definition says: the first pair with the key gets the
  -- value, the others with the key go, and a new key goes to the end.
  pub set-replace : (key value : String) (ps : Pairs t) → set t key value ps ≡ replace key value ps
  unfolding set
  set-replace key value ps =
      placed_zero key value (scan t key 0 none ps) ∙ placed-scan key value 0 ps

  -- Equal strings are equal to the same strings.
  eqb-same : (k key j : String) → eqb k key ≡ true → eqb k j ≡ eqb key j
  eqb-same k key j h = ap (λ x. eqb x j) ((eqb_iff k key).0 h)

  get_all-retain :
      (key j : String) (ps : Pairs t)
      → get_all t j (retain (λ p. not (eqb p.0 key)) ps)
        ≡ (if eqb key j then [] else get_all t j ps)
  unfolding get_all
  get_all-retain key j [] = ground arith
  get_all-retain key j ((k, v) ∷ rest) = elim (Bool-cases (eqb k key)) [
    | inl hit ↦ rw hit (ground (arith, eqb-same k key j hit, get_all-retain key j rest))
    | inr miss ↦ rw miss (ground (arith, other k key j miss, get_all-retain key j rest))
  ]
    where
      other : (a b c : String) → eqb a b ≡ false → eqb b c ≡ true → eqb a c ≡ false
      other a b c n e = ground (arith, n, ap (λ x. eqb a x) ((eqb_iff b c).0 e))

  get_all-replace :
      (key value j : String) (ps : Pairs t)
      → get_all t j (replace key value ps) ≡ (if eqb key j then value ∷ [] else get_all t j ps)
  unfolding get_all
  get_all-replace key value j [] = ground arith
  get_all-replace key value j ((k, v) ∷ rest) = elim (Bool-cases (eqb k key)) [
    | inl hit ↦ rw hit (ground (arith, eqb-same k key j hit, get_all-retain key j rest))
    | inr miss ↦ rw miss (ground (arith, other k key j miss, get_all-replace key value j rest))
  ]
    where
      other : (a b c : String) → eqb a b ≡ false → eqb b c ≡ true → eqb a c ≡ false
      other a b c n e = ground (arith, n, ap (λ x. eqb a x) ((eqb_iff b c).0 e))

  -- After set, the key has the one value that was set, and every other key has the values that it
  -- had before, in order.
  pub get_all-set :
      (key value j : String) (ps : Pairs t)
      → get_all t j (set t key value ps) ≡ (if eqb key j then value ∷ [] else get_all t j ps)
  get_all-set key value j ps =
      ap (get_all t j) (set-replace key value ps) ∙ get_all-replace key value j ps
