-- ===== src/Fetch/Examples/Maps.antt =====
-- Headers that are a list of pairs.
use spiderfire.Prelude.{
  ◌≡◌, refl, sym, ap, ◌∙◌, Bool, true, false, not, ◌||◌, List, [], ◌∷◌, ◌++◌, Option, none, some,
  if◌then◌else◌, is_empty, Bool-cases, inl, inr, Text, same, same-eq, same_refl, same_comm,
  is_member, lowercase,
}
use spiderfire.Fetch.Headers.{HeaderMaps, values_of, form_data}

abbrev pub Entries : Type 0
Entries = List (Text × Text)

unfoldable pub remove_name : Text → Entries → Entries
remove_name n [] = []
remove_name n ((k, v) ∷ rest) =
    let later = remove_name n rest in if same k n then later else (k, v) ∷ later

unfoldable pub distinct_keys : Entries → List Text
distinct_keys [] = []
distinct_keys ((k, v) ∷ rest) =
    let later = distinct_keys rest in if is_member k later then later else k ∷ later

pub values_of-append :
    (n v j : Text) (m : Entries)
    → values_of j (m ++ (n, v) ∷ []) ≡ (if same n j then values_of j m ++ v ∷ [] else values_of j m)
values_of-append n v j [] = refl
values_of-append n v j ((k, u) ∷ m) = go (same k j) (same n j) (values_of-append n v j m)
  where
    go :
        (a b : Bool)
        → values_of j (m ++ (n, v) ∷ []) ≡ (if b then values_of j m ++ v ∷ [] else values_of j m)
        → (if a then u ∷ values_of j (m ++ (n, v) ∷ []) else values_of j (m ++ (n, v) ∷ [])) ≡ (
            if b
            then (if a then u ∷ values_of j m else values_of j m) ++ v ∷ []
            else if a
            then u ∷ values_of j m
            else values_of j m)
    go true true h = ap (◌∷◌ u) h
    go true false h = ap (◌∷◌ u) h
    go false true h = h
    go false false h = h

pub values_of-remove :
    (n j : Text) (m : Entries)
    → values_of j (remove_name n m) ≡ (if same n j then [] else values_of j m)
unfolding remove_name
values_of-remove n j [] = go (same n j)
  where
    go : (b : Bool) → ◌≡◌ {A = List Text} [] (if b then [] else [])
    go true = refl
    go false = refl
values_of-remove n j ((k, u) ∷ m) = elim (Bool-cases (same k n)) [
  | inl y ↦ rw y (
      values_of-remove n j m
      ∙ go (same n j)
      ∙ ap (λ x. if same n j then [] else if same x j then u ∷ values_of j m else values_of j m)
          (sym (same-eq k n y)))
  | inr y ↦ rw y (
      kept (same k j) (same n j) (values_of j (remove_name n m)) (values_of j m) (other y)
        (values_of-remove n j m))
]
  where
    go :
        (b : Bool)
        → (if b then [] else values_of j m)
          ≡ (if b then [] else if b then u ∷ values_of j m else values_of j m)
    go true = refl
    go false = refl

    other : same k n ≡ false → same n j ≡ true → same k j ≡ false
    other y z = ap (same k) (sym (same-eq n j z)) ∙ y

    kept :
        (a b : Bool) (l v : List Text)
        → (b ≡ true → a ≡ false)
        → l ≡ (if b then [] else v)
        → (if a then u ∷ l else l) ≡ (if b then [] else if a then u ∷ v else v)
    kept true true l v h e = absurd (both (h refl))
      where
        both : true ≡ false → ⊥
        both p = cc
    kept true false l v h e = ap (◌∷◌ u) e
    kept false true l v h e = e
    kept false false l v h e = e

pub values_of-insert :
    (n v j : Text) (m : Entries)
    → values_of j (remove_name n m ++ (n, v) ∷ []) ≡ (if same n j then v ∷ [] else values_of j m)
values_of-insert n v j m =
    values_of-append n v j (remove_name n m)
    ∙ ap (λ l. if same n j then l ++ v ∷ [] else l) (values_of-remove n j m)
    ∙ go (same n j)
  where
    go :
        (b : Bool)
        → (if b
            then (if b then [] else values_of j m) ++ v ∷ []
            else if b
            then []
            else values_of j m)
          ≡ (if b then v ∷ [] else values_of j m)
    go true = refl
    go false = refl

pub keys-member :
    (n : Text) (m : Entries) → is_member n (distinct_keys m) ≡ not (is_empty (values_of n m))
unfolding distinct_keys
keys-member n [] = refl
keys-member n ((k, u) ∷ m) = elim (Bool-cases (same k n)) [
  | inl y ↦ rw y (here (is_member k (distinct_keys m)) refl (same-eq k n y))
  | inr y ↦ rw y (later (is_member k (distinct_keys m)) (same_comm n k ∙ y) ∙ keys-member n m)
]
  where
    here :
        (b : Bool)
        → is_member k (distinct_keys m) ≡ b
        → k ≡ n
        → is_member n (if b then distinct_keys m else k ∷ distinct_keys m) ≡ true
    here true e h = ap (λ x. is_member x (distinct_keys m)) (sym h) ∙ e
    here false e h =
        ap (λ x. same x k || is_member x (distinct_keys m)) (sym h) ∙ rw (same_refl k) refl

    later :
        (b : Bool)
        → same n k ≡ false
        → is_member n (if b then distinct_keys m else k ∷ distinct_keys m)
          ≡ is_member n (distinct_keys m)
    later true e = refl
    later false e = rw e refl

abbrev pub some_name : Text → Option Text
some_name [] = none
some_name (c ∷ cs) = some (lowercase (c ∷ cs))

abbrev pub pairs : HeaderMaps
pairs = record {
  Map = Entries;
  empty = [];
  entries = λ m. m;
  get_all = values_of;
  keys = distinct_keys;
  append = λ n v m. m ++ (n, v) ∷ [];
  insert = λ n v m. remove_name n m ++ (n, v) ∷ [];
  remove = remove_name;
  to_lowercase = lowercase;
  parse_name = some_name;
  parse_value = λ v. some v;
  mime = λ v. some form_data;
  get_all-empty = λ n. refl;
  get_all-entries = λ n m. refl;
  get_all-append = λ n v j m. values_of-append n v j m;
  get_all-insert = λ n v j m. values_of-insert n v j m;
  get_all-remove = λ n j m. values_of-remove n j m;
  get_all-keys = λ n m. keys-member n m;
}
