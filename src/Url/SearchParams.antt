-- ===== src/Url/SearchParams.antt =====
-- runtime/src/globals/url/search_params.rs: `URLSearchParams`. The strings and the URLs of the url
-- crate are parameters.
pub mod Setting
pub mod Sorting
pub mod Sync
use spiderfire.Prelude.{
  ℕ, zero, suc, ◌+◌, ◌≡◌, ◌↔◌, Bool, true, false, not, ◌&&◌, ◌||◌, List, [], ◌∷◌, ◌++◌, Option,
  none, some, if◌then◌else◌, retain, any, ltb, ◌==◌, is_empty,
}

-- `String`: its equality and `encode_utf16`.
pub record Strings : Type 1 where
  pub String : Type 0
  pub eqb : String → String → Bool
  pub eqb_iff : (a b : String) → (eqb a b ≡ true) ↔ (a ≡ b)
  pub encode_utf16 : String → List ℕ

-- `Ordering::is_le` of the comparison of two iterators.
unfoldable pub le_units : List ℕ → List ℕ → Bool
le_units [] ys = true
le_units (x ∷ xs) [] = false
le_units (x ∷ xs) (y ∷ ys) = let rest = le_units xs ys in ltb x y || ((x == y) && rest)

module _ (t : Strings) where
  open t use {String, eqb, encode_utf16}

  abbrev pub Pairs : Type 0
  Pairs = List (String × String)

  -- `Url::query_pairs`, `set_query(None)` and `query_pairs_mut().clear().extend_pairs(…)`: the
  -- pairs that were written are those that are read.
  pub record Urls : Type 1 where
    pub Url : Type 0
    pub query_pairs : Url → Pairs
    pub remove_query : Url → Url
    pub write_pairs : Pairs → Url → Url
    pub query_pairs-remove_query : (u : Url) → query_pairs (remove_query u) ≡ []
    pub query_pairs-write_pairs : (ps : Pairs) (u : Url) → query_pairs (write_pairs ps u) ≡ ps

  unfoldable pub append : String → String → Pairs → Pairs
  append name value ps = ps ++ (name, value) ∷ []

  abbrev pub kept_by : String → Option String → String × String → Bool
  kept_by name none p = not (eqb p.0 name)
  kept_by name (some value) p = not (eqb p.0 name) || not (eqb p.1 value)

  unfoldable pub delete : String → Option String → Pairs → Pairs
  delete name value ps = retain (kept_by name value) ps

  unfoldable pub get : String → Pairs → Option String
  get key [] = none
  get key ((k, v) ∷ rest) = if eqb k key then some v else get key rest

  unfoldable pub get_all : String → Pairs → List String
  get_all key [] = []
  get_all key ((k, v) ∷ rest) =
      let others = get_all key rest in if eqb k key then v ∷ others else others

  abbrev pub has_pair : String → Option String → String × String → Bool
  has_pair key none p = eqb p.0 key
  has_pair key (some value) p = eqb p.0 key && eqb p.1 value

  unfoldable pub has : String → Option String → Pairs → Bool
  has key value ps = any (has_pair key value) ps

  -- The `retain` of `set`, with its two captured variables: the pairs that stay, and the index.
  unfoldable pub scan : String → ℕ → Option ℕ → Pairs → Pairs × Option ℕ
  scan key i index [] = ([], index)
  scan key i none ((k, v) ∷ rest) =
      let hit = scan key i (some i) rest in
      let miss = scan key (i + 1) none rest in
      if eqb k key then ((k, v) ∷ hit.0, hit.1) else ((k, v) ∷ miss.0, miss.1)
  scan key i (some j) ((k, v) ∷ rest) =
      let more = scan key i (some j) rest in
      (if not (eqb k key) then (k, v) ∷ more.0 else more.0, more.1)

  abbrev pub put_value : ℕ → String → Pairs → Pairs
  put_value i value [] = []
  put_value zero value ((k, v) ∷ rest) = (k, value) ∷ rest
  put_value (suc i) value (p ∷ rest) = p ∷ put_value i value rest

  abbrev pub place : String → String → Option ℕ → Pairs → Pairs
  place key value none ps = ps ++ (key, value) ∷ []
  place key value (some i) ps = put_value i value ps

  unfoldable pub set : String → String → Pairs → Pairs
  unfolding scan
  set key value ps = let r = scan key 0 none ps in place key value r.1 r.0

  -- `sort_by`, a stable sort.
  unfoldable pub insert : String × String → Pairs → Pairs
  unfolding le_units
  insert p [] = p ∷ []
  insert p (q ∷ qs) =
      let rest = insert p qs in
      if le_units (encode_utf16 p.0) (encode_utf16 q.0) then p ∷ q ∷ qs else q ∷ rest

  unfoldable pub sort : Pairs → Pairs
  unfolding insert
  sort [] = []
  sort (p ∷ ps) = insert p (sort ps)

  module _ (u : Urls) where
    open u use {Url, remove_query, write_pairs, query_pairs}

    -- The parameters, with the URL that they belong to, if any.
    pub record UrlSearchParams : Type 0 where
      pub pairs : Pairs
      pub url : Option Url

    abbrev pub write_to : Pairs → Url → Url
    write_to ps url = if is_empty ps then remove_query url else write_pairs ps url

    unfoldable pub update : UrlSearchParams → UrlSearchParams
    update s = record s {
      url = elim s.url [ none ↦ none | some url ↦ some (write_to s.pairs url) ];
    }

    unfoldable pub from_url : Url → UrlSearchParams
    from_url url = record { pairs = query_pairs url; url = some url }

    -- The methods that change the pairs.
    pub data Change : Type 0 where
      append_pair : String → String → Change
      delete_pairs : String → Option String → Change
      set_pair : String → String → Change
      sort_pairs : Change

    abbrev pub changed : Change → Pairs → Pairs
    changed (append_pair name value) ps = append name value ps
    changed (delete_pairs name value) ps = delete name value ps
    changed (set_pair key value) ps = set key value ps
    changed sort_pairs ps = sort ps

    unfoldable pub apply : Change → UrlSearchParams → UrlSearchParams
    unfolding update append delete set sort
    apply c s = update (record s { pairs = changed c s.pairs })
