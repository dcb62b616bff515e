-- ===== src/Blob/Slices.antt =====
-- The bytes of a slice.
use spiderfire.Prelude.{
  ℕ, zero, suc, ◌+◌, ◌-◌, ◌≤◌, ◌<◌, ◌≡◌, refl, ap, ◌∙◌, Bool, true, false, List, [], ◌∷◌, Option,
  none, some, if◌then◌else◌, ltb, length, get_elem?, take, drop, arith, min, Text, length-take,
  length-drop,
}
use spiderfire.Prelude.Int.{ℤ, pos, negsuc}
use spiderfire.Blob.{Blob, clamp_index, start_of, end_of, slice, validate_kind}

-- The index that a script means.
abbrev pub meant : ℕ → ℤ → ℕ
meant size (pos n) = min n size
meant size (negsuc n) = size - (n + 1)

pub clamp_index-meant : (size : ℕ) (i : ℤ) → clamp_index size i ≡ meant size i
unfolding clamp_index
clamp_index-meant size (pos n) = ground arith
clamp_index-meant size (negsuc n) = ground arith

get-take : (m j : ℕ) (xs : List ℕ) → j < m → get_elem? (take m xs) j ≡ get_elem? xs j
get-take zero j xs h = absurd (below_zero h)
  where
    below_zero : j < 0 → ⊥
    below_zero k = omega (arith, k)
get-take (suc m) j [] h = refl
get-take (suc m) zero (x ∷ xs) h = refl
get-take (suc m) (suc j) (x ∷ xs) h = get-take m j xs (omega (arith, h))

pub get-take-drop :
    (n m j : ℕ) (xs : List ℕ) → j < m → get_elem? (take m (drop n xs)) j ≡ get_elem? xs (n + j)
get-take-drop zero m j xs h =
    get-take m j xs h ∙ ap (get_elem? xs) {x = j} {y = 0 + j} (omega arith)
get-take-drop (suc n) m j [] h = nothing m
  where
    nothing : (k : ℕ) → get_elem? {A = ℕ} (take k []) j ≡ none
    nothing zero = refl
    nothing (suc k) = refl
get-take-drop (suc n) m j (x ∷ xs) h =
    get-take-drop n m j xs h
    ∙ ap (get_elem? (x ∷ xs)) {x = suc (n + j)} {y = suc n + j} (omega arith)

pub length-between :
    (n m : ℕ) (xs : List ℕ) → n ≤ m → m ≤ length xs → length (take (m - n) (drop n xs)) + n ≡ m
length-between n m xs h k = omega (arith, h, k, length-take (m - n) (drop n xs), length-drop n xs)

meant_bound : (size : ℕ) (i : ℤ) → meant size i ≤ size
meant_bound size (pos n) = omega arith
meant_bound size (negsuc n) = omega arith

-- A slice that is answered has the bytes from one index up to another.
pub record Between (b b' : Blob) (from to : ℕ) : Type 0 where
  pub size : length b'.bytes + from ≡ to
  pub bytes : (j : ℕ) → j < length b'.bytes → get_elem? b'.bytes j ≡ get_elem? b.bytes (from + j)

pub Sliced : Blob → ℕ → ℕ → Option Blob → Type 0
Sliced b from to none = to < from
Sliced b from to (some b') = Between b b' from to

between :
    (b : Blob) (from to : ℕ) (kind : Option Text) (c : Bool)
    → ltb to from ≡ c
    → to ≤ length b.bytes
    → Sliced b from to (
        if c
        then none
        else some (record { bytes = take (to - from) (drop from b.bytes); kind = kind }))
unfolding Sliced
between b from to kind true h k = ground (arith, h)
between b from to kind false h k =
    let ordered : from ≤ to = ground (arith, h) in
    let size = length-between from to b.bytes ordered k in
    record {
      size = size;
      bytes = λ j l. get-take-drop from (to - from) j b.bytes (omega (arith, l, size));
    }

-- With its indices counted from the end where they are negative and cut to the size: a slice
-- panics only if its second index is below its first, and otherwise has the bytes of the blob from
-- the first index up to the second.
pub slice-Sliced :
    (b : Blob) (start end : Option ℤ) (kind : Option Text)
    → Sliced b
        (meant (length b.bytes) (start_of start))
        (meant (length b.bytes) (end_of (length b.bytes) end))
        (slice b start end kind)
unfolding slice Sliced
slice-Sliced b start end kind =
    let size = length b.bytes in
    rw (clamp_index-meant size (start_of start), clamp_index-meant size (end_of size end))
      (between b (meant size (start_of start)) (meant size (end_of size end)) (validate_kind kind) _
        refl (meant_bound size (end_of size end)))
