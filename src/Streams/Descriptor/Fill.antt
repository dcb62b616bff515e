-- ===== src/Streams/Descriptor/Fill.antt =====
-- Filling a descriptor: the bytes go from the front of the queue to the view, in order.
use mathlib.Core.List.{append_assoc, append-nil}
use spiderfire.Prelude.{
  ℕ, ◌+◌, ◌-◌, ◌≤◌, ◌≡◌, refl, sym, ap, ◌∙◌, subst, inl, inr, true, false, List, [], ◌∷◌, ◌++◌,
  some, arith, length, take, drop, min, ◌==◌, Bool-cases, ==_iff,
}
use spiderfire.Streams.Memory.{Memory, slice, write_at}
use spiderfire.Streams.Descriptor.{
  PullIntoDescriptor, Chunk, Filling, Copied, copied, fill_loop, copy_front, count_copy,
}
use spiderfire.Streams.Descriptor.Bytes.{
  chunk_bytes, queue_bytes, total, InRange, slice-write_at, slice-split, length-slice,
  length-write_at, take-add, drop-add, take_all, drop-append,
}

module _ (m : Memory) where
  open m use {Buffer, bytes, copy_data_to, copy_in_range}

  -- The bytes that the descriptor has received.
  abbrev pub received : PullIntoDescriptor Buffer → List ℕ
  received d = slice d.offset d.filled (bytes d.buffer)

  -- The view lies inside its buffer and is not overfull.
  pub record Fits (d : PullIntoDescriptor Buffer) : Type 0 where
    pub inside : d.offset + d.length ≤ length (bytes d.buffer)
    pub not_over : d.filled ≤ d.length

  -- `queue_size` is the sum of the lengths, and each chunk and the view lie inside their buffers.
  pub record IsValid (f : Filling Buffer) : Type 0 where
    pub counted : f.queue_size ≡ total m f.queue
    pub in_range : InRange m f.queue
    pub fits : Fits f.descriptor

  -- `f'` is `f` after `n` bytes have gone from the front of the queue to the end of what the
  -- descriptor has received.
  pub record Moved (n : ℕ) (f f' : Filling Buffer) : Type 0 where
    pub left : queue_bytes m f'.queue ≡ drop n (queue_bytes m f.queue)
    pub got : received f'.descriptor ≡ received f.descriptor ++ take n (queue_bytes m f.queue)
    pub filled : f'.descriptor.filled ≡ f.descriptor.filled + n
    pub same_length : f'.descriptor.length ≡ f.descriptor.length
    pub same_min : f'.descriptor.min ≡ f.descriptor.min
    pub same_element : f'.descriptor.element ≡ f.descriptor.element
    pub valid : IsValid f'

  abbrev pub Moves : ℕ → Filling Buffer → Copied Buffer → Type 0
  Moves n f r = (f' : Filling Buffer) × (r ≡ copied f') × Moved n f f'

  -- A copy from the front chunk, in range.
  copy_front-ok :
      (c : Chunk Buffer) (n : ℕ) (f : Filling Buffer)
      → n ≤ c.2
      → c.1 + c.2 ≤ length (bytes c.0)
      → f.descriptor.filled + n ≤ f.descriptor.length
      → Fits f.descriptor
      → (b : Buffer) × (copy_front m c n f ≡ some b)
        × (length (bytes b) ≡ length (bytes f.descriptor.buffer))
        × (slice f.descriptor.offset (f.descriptor.filled + n) (bytes b)
            ≡ received f.descriptor ++ slice c.1 n (bytes c.0))
  copy_front-ok (chunk, offset, len) n f small inside room fits =
      let d = f.descriptor in
      let part = slice offset n (bytes chunk) in
      let size : length part ≡ n = length-slice offset n (bytes chunk) (omega arith) in
      let (b, e, w) =
        copy_in_range chunk d.buffer offset (d.offset + d.filled) n (omega arith)
          (omega (arith, fits.inside)) in
      (
        b,
        e,
        ap length w
            ∙ length-write_at (d.offset + d.filled) part (bytes d.buffer)
                (omega (arith, fits.inside)),
        ap (λ x. slice d.offset (d.filled + n) x) w
            ∙ subst
                (λ k.
                  slice d.offset (d.filled + k)
                    (write_at (d.offset + d.filled) part (bytes d.buffer))
                  ≡ received d ++ part)
                size
                (slice-write_at d.offset d.filled part (bytes d.buffer)
                  (omega (arith, fits.inside))),
      )

  Moved-zero : (f : Filling Buffer) → IsValid f → Moved 0 f f
  Moved-zero f v = record {
    left = refl;
    got = sym (append-nil (received f.descriptor));
    filled = omega arith;
    same_length = refl;
    same_min = refl;
    same_element = refl;
    valid = v;
  }

  Moved-trans : (n k : ℕ) (f g h : Filling Buffer) → Moved n f g → Moved k g h → Moved (n + k) f h
  Moved-trans n k f g h a b = record {
    left = b.left ∙ ap (drop k) a.left ∙ sym (drop-add n k (queue_bytes m f.queue));
    got =
        b.got
        ∙ ap (λ x. x ++ take k (queue_bytes m g.queue)) a.got
        ∙ append_assoc (received f.descriptor) (take n (queue_bytes m f.queue)) _
        ∙ ap (λ x. received f.descriptor ++ (take n (queue_bytes m f.queue) ++ take k x)) a.left
        ∙ ap (◌++◌ (received f.descriptor)) (sym (take-add n k (queue_bytes m f.queue)));
    filled = omega (arith, a.filled, b.filled);
    same_length = b.same_length ∙ a.same_length;
    same_min = b.same_min ∙ a.same_min;
    same_element = b.same_element ∙ a.same_element;
    valid = b.valid;
  }

  -- A round that takes the whole front chunk.
  Moved-whole :
      (c : Chunk Buffer) (rest : List (Chunk Buffer)) (f : Filling Buffer) (b : Buffer)
      → f.queue ≡ c ∷ rest
      → IsValid f
      → f.descriptor.filled + c.2 ≤ f.descriptor.length
      → length (bytes b) ≡ length (bytes f.descriptor.buffer)
      → slice f.descriptor.offset (f.descriptor.filled + c.2) (bytes b)
        ≡ received f.descriptor ++ chunk_bytes m c
      → Moved c.2 f (count_copy m c.2 b rest f)
  Moved-whole c rest f b e v room same w =
      let ranges : InRange m (c ∷ rest) = subst (InRange m) e v.in_range in
      let size : length (chunk_bytes m c) ≡ c.2 = length-slice c.1 c.2 (bytes c.0) ranges.0 in
      let sum : f.queue_size ≡ c.2 + total m rest = v.counted ∙ ap (total m) e in
      record {
        left = sym (
            ap (λ q. drop c.2 (queue_bytes m q)) e
            ∙ drop-append c.2 (chunk_bytes m c) (queue_bytes m rest) size);
        got =
            w
            ∙ ap (◌++◌ (received f.descriptor)) (
                sym (
                  ap (λ q. take c.2 (queue_bytes m q)) e
                  ∙ take_all c.2 (chunk_bytes m c) (queue_bytes m rest) size));
        filled = refl;
        same_length = refl;
        same_min = refl;
        same_element = refl;
        valid = record {
          counted = ground (arith, sum);
          in_range = ranges.1;
          fits = record { inside = omega (arith, same, v.fits.inside); not_over = room };
        };
      }

  -- A round that takes a part of the front chunk.
  Moved-part :
      (c : Chunk Buffer) (n : ℕ) (rest : List (Chunk Buffer)) (f : Filling Buffer) (b : Buffer)
      → f.queue ≡ c ∷ rest
      → IsValid f
      → n ≤ c.2
      → f.descriptor.filled + n ≤ f.descriptor.length
      → length (bytes b) ≡ length (bytes f.descriptor.buffer)
      → slice f.descriptor.offset (f.descriptor.filled + n) (bytes b)
        ≡ received f.descriptor ++ slice c.1 n (bytes c.0)
      → Moved n f (count_copy m n b ((c.0, c.1 + n, c.2 - n) ∷ rest) f)
  Moved-part c n rest f b e v small room same w =
      let ranges : InRange m (c ∷ rest) = subst (InRange m) e v.in_range in
      let size : length (slice c.1 n (bytes c.0)) ≡ n =
        length-slice c.1 n (bytes c.0) (omega (arith, ranges.0)) in
      let sum : f.queue_size ≡ c.2 + total m rest = v.counted ∙ ap (total m) e in
      let back : n + (c.2 - n) ≡ c.2 = omega arith in
      let parts : chunk_bytes m c
          ≡ slice c.1 n (bytes c.0) ++ slice (c.1 + n) (c.2 - n) (bytes c.0) =
        ap (λ k. slice c.1 k (bytes c.0)) (sym back) ∙ slice-split c.1 n (c.2 - n) (bytes c.0) in
      let split =
        ap (queue_bytes m) e
        ∙ ap (λ x. x ++ queue_bytes m rest) parts
        ∙ append_assoc (slice c.1 n (bytes c.0)) _ (queue_bytes m rest) in
      record {
        left = sym (ap (drop n) split ∙ drop-append n (slice c.1 n (bytes c.0)) _ size);
        got =
            w
            ∙ ap (◌++◌ (received f.descriptor))
                (sym (ap (take n) split ∙ take_all n (slice c.1 n (bytes c.0)) _ size));
        filled = refl;
        same_length = refl;
        same_min = refl;
        same_element = refl;
        valid = record {
          counted = ground (arith, sum);
          in_range = (omega (arith, ranges.0), ranges.1);
          fits = record { inside = omega (arith, same, v.fits.inside); not_over = room };
        };
      }

  -- The rounds of the loop as equations.
  round_whole :
      (n : ℕ) (c : Chunk Buffer) (rest : List (Chunk Buffer)) (f : Filling Buffer) (b : Buffer)
      → (n == 0) ≡ false
      → copy_front m c (min n c.2) f ≡ some b
      → (min n c.2 == c.2) ≡ true
      → fill_loop m n (c ∷ rest) f ≡ fill_loop m (n - c.2) rest (count_copy m c.2 b rest f)
  unfolding fill_loop
  round_whole n c rest f b more copy whole = rw more (rw copy (rw whole))

  round_part :
      (n : ℕ) (c : Chunk Buffer) (rest : List (Chunk Buffer)) (f : Filling Buffer) (b : Buffer)
      → (n == 0) ≡ false
      → copy_front m c (min n c.2) f ≡ some b
      → (min n c.2 == c.2) ≡ false
      → fill_loop m n (c ∷ rest) f ≡ copied (count_copy m n b ((c.0, c.1 + n, c.2 - n) ∷ rest) f)
  unfolding fill_loop
  round_part n c rest f b more copy part = rw more (rw copy (rw part))

  loop_stop : (q : List (Chunk Buffer)) (f : Filling Buffer) → fill_loop m 0 q f ≡ copied f
  unfolding fill_loop
  loop_stop [] f = refl
  loop_stop (c ∷ rest) f = refl

  -- On a valid controller the copying loop, told to move no more bytes than the queue holds and
  -- the view has room for, moves exactly that many from the front of the queue to the end of what
  -- the view has received.
  pub fill_loop-Moves :
      (n : ℕ) (q : List (Chunk Buffer)) (f : Filling Buffer)
      → f.queue ≡ q
      → IsValid f
      → n ≤ f.queue_size
      → f.descriptor.filled + n ≤ f.descriptor.length
      → Moves n f (fill_loop m n q f)
  fill_loop-Moves n [] f e v small room =
      let z : n ≡ 0 = omega (arith, v.counted, ap (total m) e) in
      rw z (f, loop_stop [] f, Moved-zero f v)
  fill_loop-Moves n (c ∷ rest) f e v small room = elim (Bool-cases (n == 0)) [
    | inl stop ↦ let z : n ≡ 0 = ground arith in rw z (f, loop_stop (c ∷ rest) f, Moved-zero f v)
    | inr more ↦
        let ranges : InRange m (c ∷ rest) = subst (InRange m) e v.in_range in
        let sum : f.queue_size ≡ c.2 + total m rest = v.counted ∙ ap (total m) e in
        let (b, copy, same, w) =
          copy_front-ok c (min n c.2) f (omega arith) ranges.0 (omega arith) v.fits in
        elim (Bool-cases (min n c.2 == c.2)) [
          | inl whole ↦
              let k : min n c.2 ≡ c.2 = (==_iff (min n c.2) c.2).0 whole in
              let f1 = count_copy m c.2 b rest f in
              let first = Moved-whole c rest f b e v (omega arith) same (
                subst
                  (λ x.
                    slice f.descriptor.offset (f.descriptor.filled + x) (bytes b)
                    ≡ received f.descriptor ++ slice c.1 x (bytes c.0))
                  k w) in
              let (g, r, second) =
                fill_loop-Moves (n - c.2) rest f1 refl first.valid (ground (arith, sum, k))
                  (omega arith) in
              let n_back : c.2 + (n - c.2) ≡ n = omega arith in
              (
                g,
                round_whole n c rest f b more copy whole ∙ r,
                subst (λ x. Moved x f g) n_back (Moved-trans c.2 (n - c.2) f f1 g first second),
              )
          | inr part ↦
              let k : min n c.2 ≡ n = ground arith in
              (
                count_copy m n b ((c.0, c.1 + n, c.2 - n) ∷ rest) f,
                round_part n c rest f b more copy part,
                Moved-part c n rest f b e v (omega arith) room same (
                    subst
                      (λ x.
                        slice f.descriptor.offset (f.descriptor.filled + x) (bytes b)
                        ≡ received f.descriptor ++ slice c.1 x (bytes c.0))
                      k w),
              )
        ]
  ]
