-- ===== src/Streams/Memory.antt =====
-- The ArrayBuffers of SpiderMonkey (ion/src/object/typedarray/buffer.rs calls them): a buffer is
-- known by its bytes, and each operation may fail.
use spiderfire.Prelude.{
  ℕ, ◌+◌, ◌-◌, ◌^◌, ◌≤◌, ◌≡◌, Bool, List, ◌++◌, Option, some, take, drop, length, leb,
  if◌then◌else◌,
}

-- `data` written over `buffer` from `index` on.
abbrev pub write_at : ℕ → List ℕ → List ℕ → List ℕ
write_at index bytes buffer = take index buffer ++ (bytes ++ drop (index + length bytes) buffer)

-- `count` bytes from `index` on.
abbrev pub slice : ℕ → ℕ → List ℕ → List ℕ
slice index count buffer = take count (drop index buffer)

-- `copy_data_to from to from_index to_index count` is `ArrayBufferCopyData`: the target after the
-- copy. A copy between ranges that lie inside the two buffers succeeds. `transfer` moves the bytes
-- to a new buffer, `clone` copies a range, `new` makes a buffer of zeros, and `constructs` says
-- whether a view with an offset, a number of elements and an element size can be made.
pub record Memory : Type 1 where
  pub Buffer : Type 0
  pub bytes : Buffer → List ℕ
  pub copy_data_to : Buffer → Buffer → ℕ → ℕ → ℕ → Option Buffer
  pub copy_in_range :
      (source target : Buffer) (from_index to_index count : ℕ)
      → from_index + count ≤ length (bytes source)
      → to_index + count ≤ length (bytes target)
      → (b : Buffer) × (copy_data_to source target from_index to_index count ≡ some b)
        × (bytes b ≡ write_at to_index (slice from_index count (bytes source)) (bytes target))
  pub transfer : Buffer → Option Buffer
  pub transfer-bytes : (b : Buffer) {c : Buffer} → transfer b ≡ some c → bytes c ≡ bytes b
  pub clone : Buffer → ℕ → ℕ → Option Buffer
  pub clone-bytes :
      (b : Buffer) (offset count : ℕ) {c : Buffer}
      → clone b offset count ≡ some c
      → bytes c ≡ slice offset count (bytes b)
  pub new : ℕ → Option Buffer
  pub constructs : Buffer → ℕ → ℕ → ℕ → Bool

-- `usize` subtraction, which wraps.
abbrev pub sub_usize : ℕ → ℕ → ℕ
sub_usize a b = if leb b a then a - b else a + 2 ^ 64 - b
