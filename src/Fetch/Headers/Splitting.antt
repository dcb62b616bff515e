-- ===== src/Fetch/Headers/Splitting.antt =====
-- How `split_value` cuts a value that has no quotes.
use spiderfire.Prelude.{
  ℕ, ◌≡◌, refl, sym, ap, ◌∙◌, Bool, true, false, not, ◌&&◌, List, [], ◌∷◌, ◌++◌, arith, Text, trim,
  ◌==◌, all, All, join,
}
use mathlib.Core.List.{append_assoc, append-nil}
use spiderfire.Fetch.Headers.{Split, split_step, split_loop, split_value, pieces}

-- A character that is neither a quote nor a comma.
abbrev pub is_plain : ℕ → Bool
is_plain c = not (c == b'"') && not (c == b',')

-- Every part but the last one without its outer white space.
unfoldable pub trim_but_last : List Text → List Text
unfolding trim
trim_but_last [] = []
trim_but_last (p ∷ []) = p ∷ []
trim_but_last (p ∷ q ∷ ps) = trim p ∷ trim_but_last (q ∷ ps)

state : Bool → List Text → Text → Split
state e done text = record { quoted = false; escaped = e; finished = done; current = text }

both : (a b : Bool) → a && b ≡ true → (a ≡ true) × (b ≡ true)
both a b h = ground (arith, h)

split_loop-append :
    (s : Split) (xs ys : Text) → split_loop s (xs ++ ys) ≡ split_loop (split_loop s xs) ys
unfolding split_loop
split_loop-append s [] ys = refl
split_loop-append s (x ∷ xs) ys = split_loop-append (split_step s x) xs ys

step_plain :
    (e : Bool) (done : List Text) (text : Text) (c : ℕ)
    → is_plain c ≡ true
    → split_step (state e done text) c ≡ state (c == b'\\') done (text ++ c ∷ [])
unfolding split_step state
step_plain e done text c p = ground (arith, p)

step_comma :
    (e : Bool) (done : List Text) (text : Text)
    → split_step (state e done text) b',' ≡ state false (done ++ trim text ∷ []) []
unfolding split_step state
step_comma e done text = refl

loop_plain :
    (e : Bool) (done : List Text) (text a : Text)
    → all is_plain a ≡ true
    → (e' : Bool) × (split_loop (state e done text) a ≡ state e' done (text ++ a))
unfolding split_loop
loop_plain e done text [] p = (e, ap (state e done) (sym (append-nil text)))
loop_plain e done text (c ∷ a) p =
    let (here, later) = both (is_plain c) (all is_plain a) p in
    let (e', rest) = loop_plain (c == b'\\') done (text ++ c ∷ []) a later in
    (
      e',
      ap (λ s. split_loop s a) (step_plain e done text c here)
          ∙ rest
          ∙ ap (state e' done) (append_assoc text (c ∷ []) a),
    )

loop_all :
    (e : Bool) (done : List Text) (p : Text) (ps : List Text)
    → All (λ q. all is_plain q ≡ true) (p ∷ ps)
    → pieces (split_loop (state e done []) (join (b',' ∷ []) (p ∷ ps)))
      ≡ done ++ trim_but_last (p ∷ ps)
unfolding trim_but_last split_loop state
loop_all e done p [] h = ap pieces (loop_plain e done [] p h.0).1
loop_all e done p (q ∷ ps) h =
    let text = join (b',' ∷ []) (q ∷ ps) in
    let (e', first) = loop_plain e done [] p h.0 in
    ap pieces (
      split_loop-append (state e done []) p (b',' ∷ text)
      ∙ ap (λ s. split_loop s (b',' ∷ text)) first
      ∙ ap (λ s. split_loop s text) (step_comma e' done p))
    ∙ loop_all false (done ++ trim p ∷ []) q ps h.1
    ∙ append_assoc done (trim p ∷ []) (trim_but_last (q ∷ ps))

-- For parts without quotes and commas that are joined by commas, split_value gives every part but
-- the last one without its outer white space, and the last one as it stands.
pub split_value-join :
    (p : Text) (ps : List Text)
    → All (λ q. all is_plain q ≡ true) (p ∷ ps)
    → split_value (join (b',' ∷ []) (p ∷ ps)) ≡ trim_but_last (p ∷ ps)
unfolding split_value state
split_value-join p ps h = loop_all false [] p ps h
