-- ===== src/Streams/Descriptor/Answer.antt =====
-- What the filling of a waiting descriptor achieves, and what its answer says.
use native.Mathlib.Nat.{mod-lt}
use spiderfire.Prelude.{
  ℕ, ◌+◌, ◌-◌, ◌%◌, ◌≤◌, ◌<◌, ◌≡◌, refl, sym, ap, ◌∙◌, subst, inl, inr, ◌⊎◌, Bool, true, false,
  arith, length, length-drop, if◌then◌else◌,
}
use spiderfire.Streams.Memory.{Memory, sub_usize}
use spiderfire.Streams.Descriptor.{
  PullIntoDescriptor, Filling, copied, fill_pull_into_descriptor, is_ready, max_copy, max_aligned,
}
use spiderfire.Streams.Descriptor.Bytes.{queue_bytes, length-queue_bytes}
use spiderfire.Streams.Descriptor.Rounding.{floor-above, floor-mod}
use spiderfire.Streams.Descriptor.Fill.{IsValid, Moved, Moves, fill_loop-Moves}

module _ (m : Memory) where
  open m use {Buffer, bytes}

  -- What holds of a descriptor that waits for bytes: the least number of bytes is made of whole
  -- elements, and the bytes received lack a whole element above it.
  pub record Waiting (d : PullIntoDescriptor Buffer) : Type 0 where
    pub some_element : 0 < d.element
    pub aligned : d.min % d.element ≡ 0
    pub short : d.filled < d.min + d.element

  -- How many bytes a filling moves.
  abbrev pub amount : Filling Buffer → ℕ
  amount f = if is_ready m f then sub_usize (max_aligned m f) f.descriptor.filled else max_copy m f

  max_copy-le :
      (f : Filling Buffer)
      → f.descriptor.filled ≤ f.descriptor.length
      → (max_copy m f ≤ f.queue_size) × (f.descriptor.filled + max_copy m f ≤ f.descriptor.length)
  unfolding max_copy
  max_copy-le f h = ground arith

  max_aligned-le : (f : Filling Buffer) → max_aligned m f ≤ f.descriptor.filled + max_copy m f
  unfolding max_aligned
  max_aligned-le f = omega arith

  max_aligned-ready :
      (f : Filling Buffer)
      → Waiting f.descriptor
      → f.descriptor.min < max_aligned m f
      → f.descriptor.filled < max_aligned m f
  unfolding max_aligned
  max_aligned-ready f w h = omega (
    arith,
    w.short,
    floor-above f.descriptor.element (f.descriptor.filled + max_copy m f) f.descriptor.min
        w.some_element w.aligned h,
  )

  amount-le :
      (f : Filling Buffer)
      → f.descriptor.filled ≤ f.descriptor.length
      → Waiting f.descriptor
      → (amount f ≤ f.queue_size) × (f.descriptor.filled + amount f ≤ f.descriptor.length)
  unfolding is_ready
  amount-le f h w = ground (arith, max_copy-le f h, max_aligned-le f, max_aligned-ready f w)

  -- On a valid byte stream controller, filling a descriptor that waits for bytes succeeds: the
  -- first bytes of the queue, and no others, go in order behind what the view has received, the
  -- rest of the queue stays in order and is still counted by the queue size, and the view is not
  -- overfull.
  pub fill_pull_into_descriptor-Moves :
      (f : Filling Buffer)
      → IsValid m f
      → Waiting f.descriptor
      → Moves m (amount f) f (fill_pull_into_descriptor m f).1
  unfolding fill_pull_into_descriptor
  fill_pull_into_descriptor-Moves f v w =
      let bounds = amount-le f v.fits.not_over w in
      fill_loop-Moves m (amount f) f.queue f refl v bounds.0 bounds.1

  -- The answer of a filling that ends in `f'`: when it is ready, the view holds whole elements and
  -- more than its least number of bytes; when it is not, the descriptor waits on, and the queue is
  -- used up or the view is full.
  abbrev pub Answer : Bool → Filling Buffer → Type 0
  Answer true g =
      (g.descriptor.filled % g.descriptor.element ≡ 0) × (g.descriptor.min < g.descriptor.filled)
  Answer false g =
      Waiting g.descriptor × ((g.queue_size ≡ 0) ⊎ (g.descriptor.filled ≡ g.descriptor.length))

  Moved-size :
      (n : ℕ) (f g : Filling Buffer) → IsValid m f → Moved m n f g → g.queue_size ≡ f.queue_size - n
  Moved-size n f g v mv = omega (
    arith,
    v.counted,
    mv.valid.counted,
    length-queue_bytes m f.queue v.in_range,
    length-queue_bytes m g.queue mv.valid.in_range,
    ap length mv.left,
    length-drop n (queue_bytes m f.queue),
  )

  amount-ready :
      (f : Filling Buffer)
      → Waiting f.descriptor
      → is_ready m f ≡ true
      → (f.descriptor.filled + amount f ≡ max_aligned m f) × (f.descriptor.min < max_aligned m f)
  unfolding is_ready
  amount-ready f w r = ground (arith, max_aligned-ready f w)

  amount-waits :
      (f : Filling Buffer)
      → is_ready m f ≡ false
      → (amount f ≡ max_copy m f) × (max_aligned m f ≤ f.descriptor.min)
  unfolding is_ready
  amount-waits f r = ground arith

  still_short :
      (f : Filling Buffer)
      → Waiting f.descriptor
      → max_aligned m f ≤ f.descriptor.min
      → f.descriptor.filled + max_copy m f < f.descriptor.min + f.descriptor.element
  unfolding max_aligned
  still_short f w h = omega (arith, mod-lt (f.descriptor.filled + max_copy m f) w.some_element)

  max_aligned-mod : (f : Filling Buffer) → max_aligned m f % f.descriptor.element ≡ 0
  unfolding max_aligned
  max_aligned-mod f = floor-mod f.descriptor.element (f.descriptor.filled + max_copy m f)

  used_up :
      (f : Filling Buffer)
      → f.descriptor.filled ≤ f.descriptor.length
      → (f.queue_size - max_copy m f ≡ 0)
        ⊎ (f.descriptor.filled + max_copy m f ≡ f.descriptor.length)
  unfolding max_copy
  used_up f h = ground arith

  answered :
      (f g : Filling Buffer)
      → IsValid m f
      → Waiting f.descriptor
      → Moved m (amount f) f g
      → Answer (is_ready m f) g
  answered f g v w mv = by_case (is_ready m f) refl
    where
      by_case : (b : Bool) → is_ready m f ≡ b → Answer b g
      by_case true r =
          let (reached, above) = amount-ready f w r in
          let here : g.descriptor.filled ≡ max_aligned m f = mv.filled ∙ reached in
          (rw (here, mv.same_element) (max_aligned-mod f), omega (arith, here, mv.same_min, above))
      by_case false r =
          let (plain, below) = amount-waits f r in
          let here : g.descriptor.filled ≡ f.descriptor.filled + max_copy m f =
            mv.filled ∙ ap (◌+◌ f.descriptor.filled) plain in
          (
            record {
              some_element = omega (arith, mv.same_element, w.some_element);
              aligned = rw (mv.same_min, mv.same_element) w.aligned;
              short = omega (arith, here, mv.same_min, mv.same_element, still_short f w below);
            },
            elim (used_up f v.fits.not_over) [
              | inl z ↦ inl (omega (arith, Moved-size (amount f) f g v mv, plain))
              | inr full ↦ inr (omega (arith, here, mv.same_length))
            ],
          )

  -- If fill_pull_into_descriptor, on a valid controller with a descriptor that waits, ends without
  -- an error of copying, then: when it says ready, the view holds whole elements and more than its
  -- least number of bytes; when it does not, the descriptor still waits, and the queue is used up
  -- or the view is full, with bytes left in the queue or not.
  pub fill_pull_into_descriptor-Answer :
      (f g : Filling Buffer)
      → IsValid m f
      → Waiting f.descriptor
      → (fill_pull_into_descriptor m f).1 ≡ copied g
      → Answer (fill_pull_into_descriptor m f).0 g
  unfolding fill_pull_into_descriptor is_ready
  fill_pull_into_descriptor-Answer f g v w h =
      let (g', e, mv) = fill_pull_into_descriptor-Moves f v w in
      answered f g v w (subst (Moved m (amount f) f) (same_end (sym e ∙ h)) mv)
    where
      same_end : {x y : Filling Buffer} → copied x ≡ copied y → x ≡ y
      same_end p = cc
