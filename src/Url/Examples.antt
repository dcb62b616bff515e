-- ===== src/Url/Examples.antt =====
-- Search parameters on small inputs, with one-letter strings that are numbers and URLs that are
-- their pairs.
use mathlib.Core.List.{Perm}
use spiderfire.Prelude.{ℕ, ◌≡◌, refl, List, [], ◌∷◌, none, some, ◌==◌, ==_iff}
use spiderfire.Url.SearchParams.{
  Strings, Urls, Pairs, set, sort, get_all, UrlSearchParams, Change, set_pair, delete_pairs,
  sort_pairs, from_url,
}
use spiderfire.Url.SearchParams.Setting.{replace, set-replace}
use spiderfire.Url.SearchParams.Sorting.{Sorted, sort-Sorted}
use spiderfire.Url.SearchParams.Sync.{Steps, apply_all, apply_all-Steps}

abbrev letters : Strings
letters = record { String = ℕ; eqb = λ a b. a == b; eqb_iff = ==_iff; encode_utf16 = λ a. a ∷ [] }

abbrev queries : Urls letters
queries = record {
  Url = List (ℕ × ℕ);
  query_pairs = λ u. u;
  remove_query = λ u. [];
  write_pairs = λ ps u. ps;
  query_pairs-remove_query = λ u. refl;
  query_pairs-write_pairs = λ ps u. refl;
}

abbrev pairs : Pairs letters
pairs = (5, 50) ∷ (3, 30) ∷ (5, 51) ∷ (4, 40) ∷ []

set_five : set letters 5 59 pairs ≡ (5, 59) ∷ (3, 30) ∷ (4, 40) ∷ []
unfolding set
set_five = refl

set-replace_example : set letters 5 59 pairs ≡ replace letters 5 59 pairs
set-replace_example = set-replace letters 5 59 pairs

sort-Sorted_example :
    Sorted letters (sort letters pairs)
    × Perm pairs (sort letters pairs)
    × ((j : ℕ) → get_all letters j (sort letters pairs) ≡ get_all letters j pairs)
sort-Sorted_example = sort-Sorted letters pairs

abbrev changes : List (Change letters queries)
changes = set_pair 3 33 ∷ sort_pairs ∷ delete_pairs 5 none ∷ []

abbrev after_changes : UrlSearchParams letters queries
after_changes = apply_all letters queries changes (from_url letters queries pairs)

apply_all-Steps_example :
    (qs : Pairs letters) × Steps letters queries changes pairs qs
    × (after_changes.pairs ≡ qs)
    × ((url : List (ℕ × ℕ)) × (after_changes.url ≡ some url) × (url ≡ qs))
apply_all-Steps_example = apply_all-Steps letters queries changes pairs
