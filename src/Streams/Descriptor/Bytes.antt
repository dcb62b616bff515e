-- ===== src/Streams/Descriptor/Bytes.antt =====
-- The bytes of a queue of chunks, and laws of slices and of writes into a buffer.
use Prim.Native.Nat.add
use mathlib.Core.List.{append_assoc}
use spiderfire.Prelude.{
  ℕ, zero, suc, ◌+◌, ◌≤◌, ◌≡◌, refl, sym, ap, ◌∙◌, List, [], ◌∷◌, ◌++◌, arith, length,
  length-append, length-take, length-drop, take, drop,
}
use spiderfire.Streams.Memory.{Memory, slice, write_at}
use spiderfire.Streams.Descriptor.{Chunk}

module _ {ℓ} {A : Type ℓ} where
  pub take-append :
      (n k : ℕ) (xs ys : List A) → length xs ≡ n → take (n + k) (xs ++ ys) ≡ xs ++ take k ys
  take-append zero k [] ys h = rw (add.zero k)
  take-append (suc n) k [] ys h = absurd (omega arith)
  take-append zero k (x ∷ xs) ys h = absurd (omega arith)
  take-append (suc n) k (x ∷ xs) ys h =
      rw (add.suc n k) (ap (◌∷◌ x) (take-append n k xs ys (omega arith)))

  pub take_all : (n : ℕ) (xs ys : List A) → length xs ≡ n → take n (xs ++ ys) ≡ xs
  take_all zero [] ys h = refl
  take_all (suc n) [] ys h = absurd (omega arith)
  take_all zero (x ∷ xs) ys h = absurd (omega arith)
  take_all (suc n) (x ∷ xs) ys h = ap (◌∷◌ x) (take_all n xs ys (omega arith))

  pub drop-append : (n : ℕ) (xs ys : List A) → length xs ≡ n → drop n (xs ++ ys) ≡ ys
  drop-append zero [] ys h = refl
  drop-append zero (x ∷ xs) ys h = absurd (omega arith)
  drop-append (suc n) [] ys h = absurd (omega arith)
  drop-append (suc n) (x ∷ xs) ys h = drop-append n xs ys (omega arith)

  take-nil : (n : ℕ) → ◌≡◌ {A = List A} (take n []) []
  take-nil zero = refl
  take-nil (suc n) = refl

  drop-nil : (n : ℕ) → ◌≡◌ {A = List A} (drop n []) []
  drop-nil zero = refl
  drop-nil (suc n) = refl

  pub take-add : (n k : ℕ) (xs : List A) → take (n + k) xs ≡ take n xs ++ take k (drop n xs)
  take-add zero k xs = rw (add.zero k)
  take-add (suc n) k [] = rw (add.suc n k, take-nil k)
  take-add (suc n) k (x ∷ xs) = rw (add.suc n k) (ap (◌∷◌ x) (take-add n k xs))

  pub drop-add : (n k : ℕ) (xs : List A) → drop (n + k) xs ≡ drop k (drop n xs)
  drop-add zero k xs = rw (add.zero k)
  drop-add (suc n) k [] = rw (add.suc n k, drop-nil k)
  drop-add (suc n) k (x ∷ xs) = rw (add.suc n k) (drop-add n k xs)

  pub take-append_le : (n : ℕ) (xs ys : List A) → n ≤ length xs → take n (xs ++ ys) ≡ take n xs
  take-append_le zero xs ys h = refl
  take-append_le (suc n) [] ys h = absurd (omega arith)
  take-append_le (suc n) (x ∷ xs) ys h = ap (◌∷◌ x) (take-append_le n xs ys (omega arith))

  pub drop-append_le :
      (n : ℕ) (xs ys : List A) → n ≤ length xs → drop n (xs ++ ys) ≡ drop n xs ++ ys
  drop-append_le zero xs ys h = refl
  drop-append_le (suc n) [] ys h = absurd (omega arith)
  drop-append_le (suc n) (x ∷ xs) ys h = drop-append_le n xs ys (omega arith)

  pub drop-append_more :
      (n k : ℕ) (xs ys : List A) → length xs ≡ n → drop (n + k) (xs ++ ys) ≡ drop k ys
  drop-append_more n k xs ys h = drop-add n k (xs ++ ys) ∙ ap (drop k) (drop-append n xs ys h)

pub length-slice : (i n : ℕ) (b : List ℕ) → i + n ≤ length b → length (slice i n b) ≡ n
length-slice i n b h = omega (arith, length-take n (drop i b), length-drop i b)

pub slice-split : (i n k : ℕ) (b : List ℕ) → slice i (n + k) b ≡ slice i n b ++ slice (i + n) k b
slice-split i n k b =
    take-add n k (drop i b) ∙ ap (λ x. slice i n b ++ take k x) (sym (drop-add i n b))

pub length-write_at :
    (i : ℕ) (bytes b : List ℕ)
    → i + length bytes ≤ length b
    → length (write_at i bytes b) ≡ length b
length-write_at i bytes b h = omega (
  arith,
  length-append (take i b) (bytes ++ drop (i + length bytes) b),
  length-append bytes (drop (i + length bytes) b),
  length-take i b,
  length-drop (i + length bytes) b,
)

-- What stands before a write, with what was written behind it.
pub slice-write_at :
    (o n : ℕ) (bytes b : List ℕ)
    → o + n + length bytes ≤ length b
    → slice o (n + length bytes) (write_at (o + n) bytes b) ≡ slice o n b ++ bytes
slice-write_at o n bytes b h =
    let rest = drop (o + n + length bytes) b in
    ap (λ t. take (n + length bytes) (drop o (t ++ (bytes ++ rest)))) (take-add o n b)
    ∙ ap (λ t. take (n + length bytes) (drop o t))
        (append_assoc (take o b) (slice o n b) (bytes ++ rest))
    ∙ ap (take (n + length bytes))
        (drop-append o (take o b) (slice o n b ++ (bytes ++ rest)) (omega (arith, length-take o b)))
    ∙ take-append n (length bytes) (slice o n b) (bytes ++ rest) (length-slice o n b (omega arith))
    ∙ ap (◌++◌ (slice o n b)) (take_all (length bytes) bytes rest refl)

module _ (m : Memory) where
  open m use {Buffer, bytes}

  abbrev pub chunk_bytes : Chunk Buffer → List ℕ
  chunk_bytes (buffer, offset, length) = slice offset length (bytes buffer)

  abbrev pub queue_bytes : List (Chunk Buffer) → List ℕ
  queue_bytes [] = []
  queue_bytes (c ∷ rest) = chunk_bytes c ++ queue_bytes rest

  -- The sum of the lengths, which `queue_size` counts.
  abbrev pub total : List (Chunk Buffer) → ℕ
  total [] = 0
  total (c ∷ rest) = c.2 + total rest

  -- Each chunk lies inside its buffer.
  abbrev pub InRange : List (Chunk Buffer) → Type 0
  InRange [] = Unit {0}
  InRange (c ∷ rest) = (c.1 + c.2 ≤ length (bytes c.0)) × InRange rest

  pub length-queue_bytes : (q : List (Chunk Buffer)) → InRange q → length (queue_bytes q) ≡ total q
  length-queue_bytes [] v = refl
  length-queue_bytes ((b, o, n) ∷ rest) v = omega (
    arith,
    length-append (slice o n (bytes b)) (queue_bytes rest),
    length-slice o n (bytes b) v.0,
    length-queue_bytes rest v.1,
  )
