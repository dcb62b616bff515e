-- ===== src/Url/SearchParams/Sync.antt =====
-- `URLSearchParams` and the query of its URL.
use mathlib.Core.List.{Perm}
use spiderfire.Prelude.{
  ◌≡◌, refl, ap, ◌∙◌, Bool, true, false, not, ◌&&◌, ◌||◌, if◌then◌else◌, List, [], ◌∷◌, ◌++◌,
  Option, none, some,
}
use spiderfire.Url.SearchParams.{
  Strings, Urls, Pairs, UrlSearchParams, Change, append_pair, delete_pairs, set_pair, sort_pairs,
  apply, changed, write_to, delete, append, get_all, from_url,
}
use spiderfire.Url.SearchParams.Setting.{replace, set-replace}
use spiderfire.Url.SearchParams.Sorting.{Sorted, sort-Sorted}

module _ (t : Strings) (u : Urls t) where
  open t use {String, eqb}
  open u use {Url, query_pairs, query_pairs-remove_query, query_pairs-write_pairs}

  -- Whether a pair has the value that is asked for, if one is.
  abbrev pub value_is : Option String → String → Bool
  value_is none v = true
  value_is (some u) v = eqb v u

  -- The pairs without those of a name, or of a name and a value.
  abbrev pub without : String → Option String → Pairs t → Pairs t
  without name value [] = []
  without name value ((k, v) ∷ rest) =
      let later = without name value rest in
      if eqb k name && value_is value v then later else (k, v) ∷ later

  -- What one change makes of a list of pairs.
  unfoldable pub Step : Change t u → Pairs t → Pairs t → Type 0
  Step (append_pair name value) ps qs = qs ≡ ps ++ (name, value) ∷ []
  Step (delete_pairs name value) ps qs = qs ≡ without name value ps
  Step (set_pair key value) ps qs = qs ≡ replace t key value ps
  Step sort_pairs ps qs =
      Sorted t qs × Perm ps qs × ((j : String) → get_all t j qs ≡ get_all t j ps)

  -- The lists of pairs that a sequence of changes goes through.
  pub data Steps : List (Change t u) → Pairs t → Pairs t → Type 0 where
    finished : (ps : Pairs t) → Steps [] ps ps
    then_change :
        {c : Change t u} {cs : List (Change t u)} {ps qs rs : Pairs t}
        → Step c ps qs
        → Steps cs qs rs
        → Steps (c ∷ cs) ps rs

  if-swap {ℓ} : {A : Type ℓ} (b : Bool) (x y : A) → (if not b then x else y) ≡ (if b then y else x)
  if-swap true x y = refl
  if-swap false x y = refl

  delete-without :
      (name : String) (value : Option String) (ps : Pairs t)
      → delete t name value ps ≡ without name value ps
  unfolding delete
  delete-without name value [] = refl
  delete-without name none ((k, v) ∷ rest) =
      let later = delete-without name none rest in
      ap (λ l. if not (eqb k name) then (k, v) ∷ l else l) later
      ∙ ap (λ b. if b then (k, v) ∷ without name none rest else without name none rest)
          (without_end (eqb k name))
      ∙ if-swap (eqb k name && true) _ _
    where
      without_end : (b : Bool) → not b ≡ not (b && true)
      without_end true = refl
      without_end false = refl
  delete-without name (some u) ((k, v) ∷ rest) =
      let later = delete-without name (some u) rest in
      ap (λ l. if not (eqb k name) || not (eqb v u) then (k, v) ∷ l else l) later
      ∙ ap (λ b. if b then (k, v) ∷ without name (some u) rest else without name (some u) rest)
          (either (eqb k name) (eqb v u))
      ∙ if-swap (eqb k name && eqb v u) _ _
    where
      either : (a b : Bool) → not a || not b ≡ not (a && b)
      either true true = refl
      either true false = refl
      either false true = refl
      either false false = refl

  changed-Step : (c : Change t u) (ps : Pairs t) → Step c ps (changed t u c ps)
  unfolding Step append
  changed-Step (append_pair name value) ps = refl
  changed-Step (delete_pairs name value) ps = delete-without name value ps
  changed-Step (set_pair key value) ps = set-replace t key value ps
  changed-Step sort_pairs ps = sort-Sorted t ps

  -- Several changes in a row.
  unfoldable pub apply_all : List (Change t u) → UrlSearchParams t u → UrlSearchParams t u
  apply_all [] s = s
  apply_all (c ∷ cs) s = apply_all cs (apply t u c s)

  query_pairs-write_to : (ps : Pairs t) (url : Url) → query_pairs (write_to t u ps url) ≡ ps
  query_pairs-write_to [] url = query_pairs-remove_query url
  query_pairs-write_to (p ∷ ps) url = query_pairs-write_pairs (p ∷ ps) url

  -- The parameters that have a URL with this query.
  Synced : Pairs t → UrlSearchParams t u → Type 0
  Synced ps s = (s.pairs ≡ ps) × ((url : Url) × (s.url ≡ some url) × (query_pairs url ≡ ps))

  apply-Synced :
      (c : Change t u) (ps : Pairs t) (s : UrlSearchParams t u)
      → Synced ps s
      → Synced (changed t u c ps) (apply t u c s)
  unfolding apply Synced
  apply-Synced c ps s (e, (url, h, q)) = (
    ap (changed t u c) e,
    (
      write_to t u (changed t u c ps) url,
      ap {B = Option Url}
            (elim [ none ↦ none | some v ↦ some (write_to t u (changed t u c s.pairs) v) ]) h
          ∙ ap (λ l. some (write_to t u (changed t u c l) url)) e,
      query_pairs-write_to (changed t u c ps) url,
    ),
  )

  apply_all-Synced :
      (cs : List (Change t u)) (ps : Pairs t) (s : UrlSearchParams t u)
      → Synced ps s
      → (qs : Pairs t) × Steps cs ps qs × Synced qs (apply_all cs s)
  unfolding apply_all
  apply_all-Synced [] ps s a = (ps, finished ps, a)
  apply_all-Synced (c ∷ cs) ps s a =
      let (qs, run, b) =
        apply_all-Synced cs (changed t u c ps) (apply t u c s) (apply-Synced c ps s a) in
      (qs, then_change (changed-Step c ps) run, b)

  -- After any sequence of append, delete, set and sort on the search parameters of a URL, the
  -- parameters still have a URL, its query is their pairs, and those are reached from the query of
  -- the URL at first by the changes one after the other: append adds the pair at the end, delete
  -- takes out the pairs with the name, and the value if one is given, set is the direct definition
  -- of set, and sort gives a sorted permutation that keeps the order of the values of each name.
  pub apply_all-Steps :
      (cs : List (Change t u)) (url : Url)
      → (qs : Pairs t) × Steps cs (query_pairs url) qs
        × ((apply_all cs (from_url t u url)).pairs ≡ qs)
        × ((url' : Url) × ((apply_all cs (from_url t u url)).url ≡ some url')
            × (query_pairs url' ≡ qs))
  unfolding Synced from_url
  apply_all-Steps cs url =
      let (qs, run, (e, (v, h, q))) =
        apply_all-Synced cs (query_pairs url) (from_url t u url) (refl, (url, refl, refl)) in
      (qs, run, e, (v, h, q))
