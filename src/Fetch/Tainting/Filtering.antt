-- ===== src/Fetch/Tainting/Filtering.antt =====
-- The names that the filter of a cors response takes out.
use spiderfire.Fetch.Tests.{includes, is_some}
use spiderfire.Fetch.Tainting.{
  remove_each, is_allowed, allows_all, is_multiple, cors_names, cors_filter,
}
use spiderfire.Prelude.{
  ◌≡◌, refl, ap, ◌∙◌, Bool, true, false, not, ◌&&◌, ◌||◌, List, [], ◌∷◌, if◌then◌else◌, arith,
  retain, any, ltb, length, codes, is_empty, Bool-cases, inl, inr, Text, same, same-eq, same_refl,
  same_comm, is_member,
}
use spiderfire.Fetch.Options.{RequestCredentials, include, omit, same_origin_credentials}
use spiderfire.Fetch.Headers.{forbidden_response_headers}
use spiderfire.Fetch.Web.{Web}

member_if :
    (j n : Text) (r : List Text) (b : Bool)
    → is_member j (if b then n ∷ r else r) ≡ (b && same j n) || is_member j r
member_if j n r true = refl
member_if j n r false = refl

same_answer :
    (p : Text → Bool) (j n : Text) (m : Bool)
    → (p n && same j n) || (m && p j) ≡ (same j n || m) && p j
same_answer p j n m = elim (Bool-cases (same j n)) [
  | inl y ↦ rw (same-eq j n y, same_refl n) (ground arith)
  | inr y ↦ rw y (ground arith)
]

is_member-retain :
    (p : Text → Bool) (j : Text) (ns : List Text)
    → is_member j (retain p ns) ≡ is_member j ns && p j
is_member-retain p j [] = refl
is_member-retain p j (n ∷ ns) =
    member_if j n (retain p ns) (p n)
    ∙ ap (λ x. (p n && same j n) || x) (is_member-retain p j ns)
    ∙ same_answer p j n (is_member j ns)

retain_either :
    (b : Bool) (p q : Text → Bool) (j : Text) (ns : List Text)
    → is_member j (if b then retain p ns else retain q ns)
      ≡ is_member j ns && (if b then p j else q j)
retain_either true p q j ns = is_member-retain p j ns
retain_either false p q j ns = is_member-retain q j ns

if_or {ℓ} :
    {A : Type ℓ} (a b : Bool) (x y : A)
    → (if b then x else if a then x else y) ≡ (if a || b then x else y)
if_or true true x y = refl
if_or true false x y = refl
if_or false true x y = refl
if_or false false x y = refl

settled {ℓ} :
    {A : Type ℓ} (f r : Bool) (x : List A)
    → (if f then [] else if not (is_empty x) && r then [] else x) ≡ (if f || r then [] else x)
settled true r x = refl
settled false true [] = refl
settled false true (v ∷ x) = refl
settled false false [] = refl
settled false false (v ∷ x) = refl

module _ (w : Web) where
  open w use {Url, scheme, Net, maps, size_hint, size_hint-few, size_hint-many}
  open maps use {Map, get_all, remove, get_all-remove, get_all-empty, get_all-keys, keys}

  pub remove_each-get_all :
      (ns : List Text) (m : Map) (j : Text)
      → get_all j (remove_each w ns m) ≡ (if is_member j ns then [] else get_all j m)
  remove_each-get_all [] m j = refl
  remove_each-get_all (n ∷ ns) m j =
      remove_each-get_all ns (remove n m) j
      ∙ ap (λ x. if is_member j ns then [] else x) (get_all-remove n j m)
      ∙ ap (λ b. if is_member j ns then [] else if b then [] else get_all j m) (same_comm n j)
      ∙ if_or (same j n) (is_member j ns) [] (get_all j m)

  abbrev pub listed : Map → List Text
  listed m = get_all (codes "access-control-allow-headers") m

  abbrev pub hides_without_include : Map → Text → Bool
  hides_without_include m j =
      if is_member (codes "*") (listed m)
      then ltb 1 (length (get_all j m))
      else is_member j (listed m)

  -- The names that the CORS branch takes out besides the forbidden ones.
  abbrev pub hides : RequestCredentials → Map → Text → Bool
  hides include m j = is_member j (listed m)
  hides omit m j = hides_without_include m j
  hides same_origin_credentials m j = hides_without_include m j

  -- Whether the CORS branch takes a name out.
  unfoldable pub is_hidden : RequestCredentials → Map → Text → Bool
  is_hidden credentials m j = is_member j forbidden_response_headers || hides credentials m j

  any-same : (n : Text) (vs : List Text) → any (λ v. same v n) vs ≡ is_member n vs
  any-same n [] = refl
  any-same n (v ∷ vs) =
      ap (λ b. b || any (λ u. same u n) vs) (same_comm v n)
      ∙ ap (λ b. same n v || b) (any-same n vs)

  is_allowed-eq : (m : Map) (j : Text) → is_allowed w m j ≡ is_member j (listed m)
  unfolding is_allowed
  is_allowed-eq m j = any-same j (listed m)

  allows_all-eq : (m : Map) → allows_all w m ≡ is_member (codes "*") (listed m)
  unfolding allows_all
  allows_all-eq m = any-same (codes "*") (listed m)

  is_multiple-eq : (m : Map) (j : Text) → is_multiple w m j ≡ ltb 1 (length (get_all j m))
  is_multiple-eq m j = at_length (ltb 1 (length (get_all j m))) refl
    where
      at_length :
          (b : Bool)
          → ltb 1 (length (get_all j m)) ≡ b
          → not (is_some (size_hint (get_all j m))) ≡ b
      at_length true e = ap (λ o. not (is_some o)) (size_hint-many _ (ground (arith, e)))
      at_length false e = ap (λ o. not (is_some o)) (size_hint-few _ (ground (arith, e)))

  by_code : RequestCredentials → Map → Text → Bool
  by_code credentials m j =
      if not (includes credentials) && allows_all w m then is_multiple w m j else is_allowed w m j

  without_include-eq :
      (m : Map) (j : Text)
      → (if allows_all w m then is_multiple w m j else is_allowed w m j) ≡ hides_without_include m j
  without_include-eq m j =
      ap (λ b. if b then is_multiple w m j else is_allowed w m j) (allows_all-eq m)
      ∙ ap (λ x. if is_member (codes "*") (listed m) then x else is_allowed w m j)
          (is_multiple-eq m j)
      ∙ ap (λ x. if is_member (codes "*") (listed m) then ltb 1 (length (get_all j m)) else x)
          (is_allowed-eq m j)

  by_code-eq :
      (credentials : RequestCredentials) (m : Map) (j : Text)
      → by_code credentials m j ≡ hides credentials m j
  unfolding by_code
  by_code-eq include m j = is_allowed-eq m j
  by_code-eq omit m j = without_include-eq m j
  by_code-eq same_origin_credentials m j = without_include-eq m j

  cors_names-member :
      (credentials : RequestCredentials) (m : Map) (j : Text)
      → is_member j (cors_names w credentials m)
        ≡ not (is_empty (get_all j m))
          && (if not (includes credentials) && allows_all w m
              then is_multiple w m j
              else is_allowed w m j)
  cors_names-member credentials m j =
      retain_either (not (includes credentials) && allows_all w m) (is_multiple w m)
        (is_allowed w m) j (keys m)
      ∙ ap
          (λ b.
            b
            && (if not (includes credentials) && allows_all w m
                then is_multiple w m j
                else is_allowed w m j))
          (get_all-keys j m)

  -- The filter of a cors response takes out the names that are forbidden in responses and, if the
  -- credentials are not include and a value of access-control-allow-headers is a star, the names
  -- with several values; otherwise the names that access-control-allow-headers lists. Every other
  -- name keeps its values.
  pub cors_filter-get_all :
      (credentials : RequestCredentials) (m : Map) (j : Text)
      → get_all j (cors_filter w credentials m)
        ≡ (if is_hidden credentials m j then [] else get_all j m)
  unfolding cors_filter is_hidden by_code
  cors_filter-get_all credentials m j =
      let names = cors_names w credentials m in
      remove_each-get_all forbidden_response_headers (remove_each w names m) j
      ∙ ap (λ x. if is_member j forbidden_response_headers then [] else x)
          (remove_each-get_all names m j)
      ∙ ap
          (λ b.
            if is_member j forbidden_response_headers then [] else if b then [] else get_all j m)
          (cors_names-member credentials m j)
      ∙ settled (is_member j forbidden_response_headers) _ (get_all j m)
      ∙ ap (λ b. if is_member j forbidden_response_headers || b then [] else get_all j m)
          (by_code-eq credentials m j)
