-- ===== src/Blob.antt =====
-- runtime/src/globals/file/blob.rs: `Endings`, `Blob` and its methods.
pub mod Lines
pub mod Slices
mod Examples
use spiderfire.Prelude.{
  ℕ, zero, suc, ◌+◌, ◌-◌, ◌≡◌, Bool, true, false, ◌&&◌, List, [], ◌∷◌, ◌++◌, Option, none, some,
  if◌then◌else◌, ltb, leb, length, ◌==◌, get_elem?, take, drop, all, Text, lowercase,
}
use spiderfire.Prelude.Int.{ℤ, pos, negsuc, ◌+ℤ◌, max_ℤ, min_ℤ, pos_part, neg_part}

pub data Endings : Type 0 where
  transparent native : Endings

-- `ion::format::NEWLINE`
abbrev pub newline : List ℕ
newline = b'\n' ∷ []

-- The loop of `convert`: its index and the buffer, or the end. One pass is one unit of fuel.
abbrev pub is_byte : ℕ → Option ℕ → Bool
is_byte c none = false
is_byte c (some b) = b == c

unfoldable pub convert_step : List ℕ → ℕ → List ℕ → ℕ → ℕ × List ℕ
convert_step string i buffer b =
    if b == b'\r'
    then (
      (if is_byte b'\n' (get_elem? string (suc i)) then suc (suc i) else suc i),
      buffer ++ newline,
    )
    else if b == b'\n'
    then (suc i, buffer ++ newline)
    else (suc i, buffer ++ b ∷ [])

abbrev pub while_some :
    (ℕ → List ℕ → Option (List ℕ)) → List ℕ → ℕ → List ℕ → Option ℕ → Option (List ℕ)
while_some again string i buffer none = some buffer
while_some again string i buffer (some b) =
    again (convert_step string i buffer b).0 (convert_step string i buffer b).1

unfoldable pub convert_loop : ℕ → List ℕ → ℕ → List ℕ → Option (List ℕ)
unfolding convert_step
convert_loop zero string i buffer = none
convert_loop (suc fuel) string i buffer =
    while_some (convert_loop fuel string) string i buffer (get_elem? string i)

-- `Endings::convert`: none is the end of the fuel.
unfoldable pub convert : Endings → List ℕ → List ℕ → Option (List ℕ)
unfolding convert_loop
convert transparent buffer string = some (buffer ++ string)
convert native buffer string = convert_loop (length string + 1) string 0 buffer

unfoldable pub validate_kind : Option Text → Option Text
validate_kind none = none
validate_kind (some kind) =
    if all (λ b. leb 0x20 b && leb b 0x7e) kind then some (lowercase kind) else none

pub record Blob : Type 0 where
  pub bytes : List ℕ
  pub kind : Option Text

pub data BlobPart : Type 0 where
  string_part : Text → BlobPart
  source_part : List ℕ → BlobPart
  blob_part : Blob → BlobPart

unfoldable pub add_part : Endings → List ℕ → BlobPart → Option (List ℕ)
unfolding convert
add_part endings buffer (string_part s) = convert endings buffer s
add_part endings buffer (source_part source) = some (buffer ++ source)
add_part endings buffer (blob_part blob) = some (buffer ++ blob.bytes)

abbrev pub and_then : Option (List ℕ) → (List ℕ → Option (List ℕ)) → Option (List ℕ)
and_then none f = none
and_then (some b) f = f b

unfoldable pub add_parts : Endings → List ℕ → List BlobPart → Option (List ℕ)
unfolding add_part
add_parts endings buffer [] = some buffer
add_parts endings buffer (p ∷ ps) =
    and_then (add_part endings buffer p) (λ b. add_parts endings b ps)

-- `Blob::constructor`; parts and options that are not given are no parts and the default options.
abbrev pub of_bytes : Option Text → Option (List ℕ) → Option Blob
of_bytes kind none = none
of_bytes kind (some bytes) = some (record { bytes = bytes; kind = kind })

unfoldable pub constructor : List BlobPart → Endings → Option Text → Option Blob
unfolding add_parts validate_kind
constructor parts endings kind = of_bytes (validate_kind kind) (add_parts endings [] parts)

unfoldable pub get_size : Blob → ℕ
get_size b = length b.bytes

abbrev pub or_empty : Option Text → Text
or_empty none = []
or_empty (some kind) = kind

unfoldable pub get_type : Blob → Text
get_type b = or_empty b.kind

-- `Blob::slice`. An index below 0 counts from the end.
abbrev pub is_negative : ℤ → Bool
is_negative (pos n) = false
is_negative (negsuc n) = true

unfoldable pub clamp_index : ℕ → ℤ → ℕ
clamp_index size i =
    let i1 = if is_negative i then max_ℤ (pos 0) (pos size +ℤ i) else i in
    pos_part (min_ℤ i1 (pos size))

abbrev pub start_of : Option ℤ → ℤ
start_of none = pos 0
start_of (some i) = i

abbrev pub end_of : ℕ → Option ℤ → ℤ
end_of size none = pos size
end_of size (some i) = i

-- `end - start` is of `usize`: below 0 it panics, or, where it wraps, the range of
-- `Bytes::slice` starts after its end, which panics too. None is the panic.
unfoldable pub slice : Blob → Option ℤ → Option ℤ → Option Text → Option Blob
unfolding clamp_index validate_kind
slice b start end kind =
    let size = length b.bytes in
    let from = clamp_index size (start_of start) in
    let to = clamp_index size (end_of size end) in
    if ltb to from
    then none
    else some (record { bytes = take (to - from) (drop from b.bytes); kind = validate_kind kind })
