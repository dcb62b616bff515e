-- ===== src/Fetch/Schemes/Ranges.antt =====
-- The part of a blob or a file that a range gives.
use spiderfire.Prelude.{
  ℕ, suc, ◌+◌, ◌-◌, ◌^◌, ◌≤◌, ◌<◌, ◌≡◌, refl, ap, ◌∙◌, ◌⊎◌, inl, inr, true, false, List, [], Option,
  none, some, ltb, length, get_elem?, take, drop, arith, Bool-cases,
}
use spiderfire.Blob.Slices.{get-take-drop, length-between}
use spiderfire.Fetch.Web.{Web}
use spiderfire.Fetch.Schemes.{
  Bound, included, excluded, unbounded, RangeHeader, bad_range, no_range, ranges, Stores, Ranged,
  Answer, network_failure, ranged, slice_bytes, slice, slice_between, plus_one, named_range, cut_to,
  cut, ranged_by, get_ranged_bytes,
}

-- A range that names the bytes from one index up to before another, both within the length: it
-- starts at an index that it includes, and includes its last index or has none.
abbrev pub Inside : ℕ → Bound → Bound → ℕ → ℕ → Type 0
Inside len (included s) (included e) from to =
    (from ≡ s) × (to ≡ suc e) × ((from ≤ to) × (to ≤ len))
Inside len (included s) (excluded e) from to = ⊥
Inside len (included s) unbounded from to = (from ≡ s) × (to ≡ len) × ((from ≤ to) × (to ≤ len))
Inside len (excluded s) end from to = ⊥
Inside len unbounded end from to = ⊥

-- The bytes from one index up to before another.
pub record Cut (bytes : List ℕ) (from to : ℕ) (a : Ranged) : Type 0 where
  pub status : a.status ≡ 206
  pub requested : a.range_requested ≡ true
  pub size : length a.bytes + from ≡ to
  pub same_bytes : (j : ℕ) → j < length a.bytes → get_elem? a.bytes j ≡ get_elem? bytes (from + j)

slice_bytes-ok :
    (from to : ℕ) (bytes : List ℕ)
    → from ≤ to
    → to ≤ length bytes
    → slice_bytes from to bytes ≡ some (take (to - from) (drop from bytes))
unfolding slice_bytes
slice_bytes-ok from to bytes h k = ground (arith, h, k)

slice_bytes-none :
    (from to : ℕ) (bytes : List ℕ)
    → to < from ⊎ length bytes < to
    → slice_bytes from to bytes ≡ none
unfolding slice_bytes
slice_bytes-none from to bytes (inl h) = ground (arith, h)
slice_bytes-none from to bytes (inr h) = ground (arith, h)

plus_one-ok : (n : ℕ) → n + 1 < 2 ^ 64 → plus_one n ≡ some (suc n)
plus_one-ok n h = ground (arith, h)

-- Whether a slice is within the bytes.
within : (from to len : ℕ) → ((from ≤ to) × (to ≤ len)) ⊎ (to < from ⊎ len < to)
within from to len = elim (Bool-cases (ltb to from)) [
  | inl y ↦ inr (inl (ground (arith, y)))
  | inr y ↦ elim (Bool-cases (ltb len to)) [
    | inl z ↦ inr (inr (ground (arith, z)))
    | inr z ↦ inl (ground (arith, y), ground (arith, z))
  ]
]

outside : (from to len : ℕ) → to < from ⊎ len < to → ¬ ((from ≤ to) × (to ≤ len))
outside from to len (inl h) k = omega (arith, h, k)
outside from to len (inr h) k = omega (arith, h, k)

-- The slice up to and with an index, of bytes that are fewer than a `usize` counts.
up_to-slice :
    (s e : ℕ) (bytes : List ℕ)
    → length bytes < 2 ^ 64
    → (slice bytes (included s) (included e) ≡ slice_bytes s (suc e) bytes)
      ⊎ ((slice bytes (included s) (included e) ≡ none) × (length bytes < suc e))
up_to-slice s e bytes h = elim (Bool-cases (ltb (e + 1) (2 ^ 64))) [
  | inl y ↦ inl (ap (slice_between bytes (some s)) (plus_one-ok e (ground (arith, y))))
  | inr y ↦ inr (ap (slice_between bytes (some s)) (too_far y), ground (arith, y, h))
]
  where
    too_far : ltb (e + 1) (2 ^ 64) ≡ false → plus_one e ≡ none
    too_far y = rw y refl

module _ (w : Web) (s : Stores w) where
  open w use {maps}

  -- What is answered to a range: the bytes that it names, or a panic if it names none.
  pub Answered : List ℕ → Option (Bound × Bound) → Option Answer → Type 0
  Answered bytes none o = o ≡ some network_failure
  Answered bytes (some (start, end)) o =
      ((from : ℕ) × (to : ℕ) × Inside (length bytes) start end from to
        × ((a : Ranged) × (o ≡ some (ranged a)) × Cut bytes from to a))
      ⊎ (((from to : ℕ) → ¬ Inside (length bytes) start end from to) × (o ≡ none))

  pub Part : List ℕ → RangeHeader → Option Answer → Type 0
  Part bytes bad_range o = o ≡ some network_failure
  Part bytes no_range o =
      o
      ≡ some
          (ranged (record { bytes = bytes; headers = []; status = 200; range_requested = false }))
  Part bytes (ranges f) o = Answered bytes (f (length bytes)) o

  cut_to-Cut :
      (bytes : List ℕ) (from to : ℕ) (r : ℕ × ℕ) (o : Option (List ℕ))
      → o ≡ slice_bytes from to bytes
      → from ≤ to
      → to ≤ length bytes
      → (a : Ranged) × (cut_to w s (length bytes) (some r) o ≡ some (ranged a))
        × Cut bytes from to a
  cut_to-Cut bytes from to r o e h k =
      let size = length-between from to bytes h k in
      (
        _,
        ap (cut_to w s (length bytes) (some r)) (e ∙ slice_bytes-ok from to bytes h k),
        record {
          status = refl;
          requested = refl;
          size = size;
          same_bytes = λ j l. get-take-drop from (to - from) j bytes (omega (arith, l, size));
        },
      )

  cut_to-none :
      (bytes : List ℕ) (r : Option (ℕ × ℕ)) (o : Option (List ℕ))
      → o ≡ none
      → cut_to w s (length bytes) r o ≡ none
  cut_to-none bytes r o e = ap (cut_to w s (length bytes) r) e

  unnamed : (bytes : List ℕ) (o : Option (List ℕ)) → cut_to w s (length bytes) none o ≡ none
  unnamed bytes none = refl
  unnamed bytes (some part) = refl

  up_to-Answered :
      (bytes : List ℕ) (i e : ℕ)
      → length bytes < 2 ^ 64
      → Answered bytes
          (some (included i, included e))
          (cut w s bytes (some (included i, included e)))
  unfolding Answered
  up_to-Answered bytes i e h = elim (up_to-slice i e bytes h) [
    | inl p ↦ elim (within i (suc e) (length bytes)) [
      | inl k ↦ inl (i, suc e, (refl, refl, k), cut_to-Cut bytes i (suc e) (i, e) _ p k.0 k.1)
      | inr k ↦ inr (
        λ from to x. outside i (suc e) (length bytes) k (rw (x.0, x.1) at x.2),
        cut_to-none bytes (some (i, e)) _ (p ∙ slice_bytes-none i (suc e) bytes k),
      )
    ]
    | inr p ↦ inr (λ from to x. omega (arith, p.1, x.1, x.2), cut_to-none bytes (some (i, e)) _ p.0)
  ]

  open-Answered :
      (bytes : List ℕ) (i : ℕ)
      → Answered bytes (some (included i, unbounded)) (cut w s bytes (some (included i, unbounded)))
  unfolding Answered
  open-Answered bytes i = elim (within i (length bytes) (length bytes)) [
    | inl k ↦
        inl (i, length bytes, (refl, refl, k), cut_to-Cut bytes i (length bytes) _ _ refl k.0 k.1)
    | inr k ↦ inr (
      λ from to x. outside i (length bytes) (length bytes) k (rw (x.0, x.1) at x.2),
      cut_to-none bytes (named_range (length bytes) (included i) unbounded) _
          (slice_bytes-none i (length bytes) bytes k),
    )
  ]

  cut-Answered :
      (bytes : List ℕ) (r : Option (Bound × Bound))
      → length bytes < 2 ^ 64
      → Answered bytes r (cut w s bytes r)
  unfolding Answered
  cut-Answered bytes none h = refl
  cut-Answered bytes (some (included i, included e)) h = up_to-Answered bytes i e h
  cut-Answered bytes (some (included i, unbounded)) h = open-Answered bytes i
  cut-Answered bytes (some (included i, excluded e)) h =
      inr (λ from to x. x, unnamed bytes (slice bytes (included i) (excluded e)))
  cut-Answered bytes (some (excluded i, end)) h =
      inr (λ from to x. x, unnamed bytes (slice bytes (excluded i) end))
  cut-Answered bytes (some (unbounded, end)) h =
      inr (λ from to x. x, unnamed bytes (slice bytes unbounded end))

  -- For fewer than 2^64 bytes: a bad range header, or ranges of which the crate takes none, give a
  -- network error; no header gives all bytes with status 200; and the first range gives, with
  -- status 206, the bytes from its first index up to and with its last one, or to the end where it
  -- has none, if it includes its first index and lies within the bytes, and panics otherwise.
  pub get_ranged_bytes-Part :
      (m : maps.Map) (bytes : List ℕ)
      → length bytes < 2 ^ 64
      → Part bytes (s.range m) (get_ranged_bytes w s m bytes)
  unfolding get_ranged_bytes Part
  get_ranged_bytes-Part m bytes h = by_header (s.range m)
    where
      by_header : (r : RangeHeader) → Part bytes r (ranged_by w s bytes r)
      by_header bad_range = refl
      by_header no_range = refl
      by_header (ranges f) = cut-Answered bytes (f (length bytes)) h
