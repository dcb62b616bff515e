-- ===== src/Blob/Examples.antt =====
-- Blobs on small inputs.
use spiderfire.Prelude.{◌≡◌, refl, false, [], ◌∷◌, ◌++◌, none, some, Text}
use spiderfire.Prelude.Int.{pos, negsuc}
use spiderfire.Blob.{Blob, convert, native, slice}
use spiderfire.Blob.Lines.{join_lines, lines, convert-lines}
use spiderfire.Blob.Slices.{Sliced, slice-Sliced}

abbrev mixed : Text
mixed = b'a' ∷ b'\r' ∷ b'\n' ∷ b'\r' ∷ b'b' ∷ b'\n' ∷ []

convert-lines_example : convert native [] mixed ≡ some ([] ++ join_lines (lines false mixed))
convert-lines_example = convert-lines [] mixed

converted : convert native [] mixed ≡ some (b'a' ∷ b'\n' ∷ b'\n' ∷ b'b' ∷ b'\n' ∷ [])
unfolding convert
converted = refl

abbrev five : Blob
five = record { bytes = 1 ∷ 2 ∷ 3 ∷ 4 ∷ 5 ∷ []; kind = none }

slice-Sliced_example : Sliced five 1 4 (slice five (some (pos 1)) (some (negsuc 0)) none)
slice-Sliced_example = slice-Sliced five (some (pos 1)) (some (negsuc 0)) none

-- A slice that ends before it starts panics.
backwards : slice five (some (pos 3)) (some (pos 1)) none ≡ none
unfolding slice
backwards = refl
