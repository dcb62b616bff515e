-- ===== src/Blob/Lines.antt =====
-- The lines of a text and its native endings.
use spiderfire.Prelude.{
  ℕ, zero, suc, ◌+◌, ◌<◌, ◌≤◌, ◌≡◌, refl, sym, ap, ◌∙◌, Bool, true, false, List, [], ◌∷◌, ◌++◌,
  some, if◌then◌else◌, length, ◌==◌, get_elem?, drop, arith, Bool-cases, inl, inr,
}
use mathlib.Core.List.{append_assoc, append-nil}
use spiderfire.Blob.{newline, is_byte, while_some, convert_step, convert_loop, convert, native}

-- The lines of a text, the first one apart. Carriage return, line feed, and the two together end a
-- line; the test says whether the last character was a carriage return.
abbrev pub later_lines : List ℕ × List (List ℕ) → List ℕ × List (List ℕ)
later_lines ls = ([], ls.0 ∷ ls.1)

unfoldable pub lines : Bool → List ℕ → List ℕ × List (List ℕ)
lines cr [] = ([], [])
lines cr (c ∷ cs) =
    if c == b'\r'
    then later_lines (lines true cs)
    else if c == b'\n'
    then (if cr then lines false cs else later_lines (lines false cs))
    else (c ∷ (lines false cs).0, (lines false cs).1)

abbrev pub with_newlines : List (List ℕ) → List ℕ
with_newlines [] = []
with_newlines (l ∷ ls) = newline ++ (l ++ with_newlines ls)

abbrev pub join_lines : List ℕ × List (List ℕ) → List ℕ
join_lines ls = ls.0 ++ with_newlines ls.1

drop-more :
    (string : List ℕ) (i c : ℕ) (rest : List ℕ)
    → drop i string ≡ c ∷ rest
    → drop (suc i) string ≡ rest
drop-more [] zero c rest h = cc
drop-more [] (suc i) c rest h = cc
drop-more (x ∷ xs) zero c rest h = ap tail_of h
  where
    tail_of : List ℕ → List ℕ
    tail_of [] = []
    tail_of (y ∷ ys) = ys
drop-more (x ∷ xs) (suc i) c rest h = drop-more xs i c rest h

get-drop : (string : List ℕ) (i : ℕ) → get_elem? string i ≡ get_elem? (drop i string) 0
get-drop [] zero = refl
get-drop [] (suc i) = refl
get-drop (x ∷ xs) zero = refl
get-drop (x ∷ xs) (suc i) = get-drop xs i

-- What follows a carriage return.
abbrev pub skip : List ℕ → List ℕ
skip [] = []
skip (c ∷ cs) = if c == b'\n' then cs else c ∷ cs

not_both : (c : ℕ) → (c == b'\n') ≡ true → (c == b'\r') ≡ false
not_both c h = ground (arith, h)

lines_other :
    (c : ℕ) (cs : List ℕ) → (c == b'\n') ≡ false → lines true (c ∷ cs) ≡ lines false (c ∷ cs)
unfolding lines
lines_other c cs h = rw h refl

lines-skip : (cs : List ℕ) → lines true cs ≡ lines false (skip cs)
unfolding lines
lines-skip [] = refl
lines-skip (c ∷ cs) = elim (Bool-cases (c == b'\n')) [
  | inl y ↦ rw (y, not_both c y) refl
  | inr y ↦ lines_other c cs y ∙ ap (λ b. lines false (if b then cs else c ∷ cs)) (sym y)
]

length-skip : (cs : List ℕ) → length (skip cs) ≤ length cs
length-skip [] = omega arith
length-skip (c ∷ cs) = ground arith

drop-skip :
    (string : List ℕ) (i : ℕ) (rest : List ℕ)
    → drop i string ≡ rest
    → drop (if is_byte b'\n' (get_elem? string i) then suc i else i) string ≡ skip rest
drop-skip string i [] d =
    ap (λ b. drop (if is_byte b'\n' b then suc i else i) string)
      (get-drop string i ∙ ap (λ r. get_elem? r 0) d)
    ∙ d
drop-skip string i (c ∷ cs) d =
    ap (λ b. drop (if is_byte b'\n' b then suc i else i) string)
      (get-drop string i ∙ ap (λ r. get_elem? r 0) d)
    ∙ elim (Bool-cases (c == b'\n')) [ inl y ↦ rw y (drop-more string i c cs d) | inr y ↦ rw y d ]

convert_loop-lines :
    (fuel : ℕ) (string : List ℕ) (i : ℕ) (buffer rest : List ℕ)
    → drop i string ≡ rest
    → length rest < fuel
    → convert_loop fuel string i buffer ≡ some (buffer ++ join_lines (lines false rest))
unfolding convert_loop convert_step lines
convert_loop-lines zero string i buffer rest d h = absurd (none_left h)
  where
    none_left : length rest < 0 → ⊥
    none_left k = omega (arith, k)
convert_loop-lines (suc fuel) string i buffer [] d h =
    ap (while_some (convert_loop fuel string) string i buffer)
      (get-drop string i ∙ ap (λ r. get_elem? r 0) d)
    ∙ ap some (sym (append-nil buffer))
convert_loop-lines (suc fuel) string i buffer (c ∷ rest) d h =
    ap (while_some (convert_loop fuel string) string i buffer)
      (get-drop string i ∙ ap (λ r. get_elem? r 0) d)
    ∙ elim (Bool-cases (c == b'\r')) [
      | inl y ↦ rw y (
          convert_loop-lines fuel string
            (if is_byte b'\n' (get_elem? string (suc i)) then suc (suc i) else suc i)
            (buffer ++ newline) (skip rest)
            (drop-skip string (suc i) rest (drop-more string i c rest d))
            (omega (arith, h, length-skip rest))
          ∙ ap some (
              append_assoc buffer newline (join_lines (lines false (skip rest)))
              ∙ ap (λ ls. buffer ++ (newline ++ join_lines ls)) (sym (lines-skip rest))))
      | inr y ↦ rw y (elim (Bool-cases (c == b'\n')) [
        | inl z ↦ rw z (
            convert_loop-lines fuel string (suc i) (buffer ++ newline) rest
              (drop-more string i c rest d) (omega (arith, h))
            ∙ ap some (append_assoc buffer newline (join_lines (lines false rest))))
        | inr z ↦ rw z (
            convert_loop-lines fuel string (suc i) (buffer ++ c ∷ []) rest
              (drop-more string i c rest d) (omega (arith, h))
            ∙ ap some (append_assoc buffer (c ∷ []) (join_lines (lines false rest))))
      ])
    ]

-- The conversion to native line endings, with the fuel that it starts with, appends the lines of
-- the text joined by the native newline, where carriage return, line feed, and the two together
-- each end a line.
pub convert-lines :
    (buffer string : List ℕ)
    → convert native buffer string ≡ some (buffer ++ join_lines (lines false string))
unfolding convert
convert-lines buffer string =
    convert_loop-lines (length string + 1) string 0 buffer string refl (omega arith)
