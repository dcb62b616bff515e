-- ===== src/Streams/Descriptor.antt =====
-- runtime/src/globals/streams/readable/controller.rs: `PullIntoDescriptor` and the filling of a
-- descriptor from the queue of a byte stream controller. Sums of sizes are not cut at 64 bits.
pub mod Bytes
pub mod Fill
pub mod Rounding
pub mod Answer
use spiderfire.Prelude.{
  ℕ, ◌+◌, ◌-◌, ◌%◌, ◌≤◌, ◌<◌, Bool, List, [], ◌∷◌, Option, none, some, min, ltb, ◌==◌,
  if◌then◌else◌,
}
use spiderfire.Streams.Memory.{Memory, sub_usize}

-- runtime/src/globals/streams/readable/reader.rs
pub data ReaderKind : Type 0 where
  none_kind default_kind byob_kind : ReaderKind

pub record PullIntoDescriptor (Buffer : Type 0) : Type 0 where
  pub buffer : Buffer
  pub offset : ℕ
  pub length : ℕ
  pub filled : ℕ
  pub min : ℕ
  pub element : ℕ
  pub kind : ReaderKind

-- A chunk of the queue: a buffer, the offset of its bytes in it and their number.
abbrev pub Chunk : Type 0 → Type 0
Chunk Buffer = Buffer × ℕ × ℕ

-- The parts of the controller that the filling changes, with its descriptor.
pub record Filling (Buffer : Type 0) : Type 0 where
  pub queue : List (Chunk Buffer)
  pub queue_size : ℕ
  pub descriptor : PullIntoDescriptor Buffer

pub data Copied (Buffer : Type 0) : Type 0 where
  copied : Filling Buffer → Copied Buffer
  failed : Filling Buffer → Copied Buffer

module _ (m : Memory) where
  open m use {Buffer, copy_data_to}

  -- The counters after a copy of `n` bytes.
  abbrev pub count_copy : ℕ → Buffer → List (Chunk Buffer) → Filling Buffer → Filling Buffer
  count_copy n buffer rest f = record {
    queue = rest;
    queue_size = sub_usize f.queue_size n;
    descriptor = record f.descriptor { buffer = buffer; filled = f.descriptor.filled + n };
  }

  abbrev pub copy_front : Chunk Buffer → ℕ → Filling Buffer → Option Buffer
  copy_front (chunk, offset, length) n f =
      copy_data_to chunk f.descriptor.buffer offset (f.descriptor.offset + f.descriptor.filled) n

  -- The `while remaining > 0` loop, over the queue `q` of the controller. A round takes the whole
  -- front chunk, and the loop goes on behind it; or it takes a part of it and nothing remains. On
  -- an empty queue the counters move with no copy.
  unfoldable pub fill_loop : ℕ → List (Chunk Buffer) → Filling Buffer → Copied Buffer
  fill_loop remaining [] f =
      if remaining == 0 then copied f else copied (count_copy remaining f.descriptor.buffer [] f)
  fill_loop remaining ((chunk, offset, length) ∷ rest) f =
      if remaining == 0
      then copied f
      else elim (copy_front (chunk, offset, length) (min remaining length) f) [
        | none ↦ failed f
        | some buffer ↦
            if min remaining length == length
            then fill_loop (remaining - length) rest (count_copy length buffer rest f)
            else copied (
                count_copy remaining buffer ((chunk, offset + remaining, length - remaining) ∷ rest)
                  f)
      ]

  -- The bytes to copy, and whether the descriptor is then ready to be committed.
  unfoldable pub max_copy : Filling Buffer → ℕ
  max_copy f = min f.queue_size (sub_usize f.descriptor.length f.descriptor.filled)

  unfoldable pub max_aligned : Filling Buffer → ℕ
  unfolding max_copy
  max_aligned f = let n = f.descriptor.filled + max_copy f in n - n % f.descriptor.element

  unfoldable pub is_ready : Filling Buffer → Bool
  unfolding max_aligned
  is_ready f = ltb f.descriptor.min (max_aligned f)

  unfoldable pub fill_pull_into_descriptor : Filling Buffer → Bool × Copied Buffer
  unfolding is_ready fill_loop
  fill_pull_into_descriptor f =
      let ready = is_ready f in
      let remaining = if ready then sub_usize (max_aligned f) f.descriptor.filled else max_copy f in
      (ready, fill_loop remaining f.queue f)
