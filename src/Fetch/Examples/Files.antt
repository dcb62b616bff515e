-- ===== src/Fetch/Examples/Files.antt =====
-- A fetch of a file by a range of its bytes.
use spiderfire.Prelude.{ℕ, ◌≡◌, refl, if◌then◌else◌, ltb, [], ◌∷◌, Option, none, some, codes, arith}
use spiderfire.Fetch.Examples.Fetches.{web, start}
use spiderfire.Fetch.Web.{get_method}
use spiderfire.Fetch.Responses.{Response, ResponseBody, bytes_body}
use spiderfire.Fetch.Schemes.{
  Stores, ranges, Bound, included, unbounded, get_ranged_bytes, scheme_fetch,
}
use spiderfire.Fetch.Schemes.Ranges.{Part, get_ranged_bytes-Part}

-- Every request asks for the second and the third byte.
abbrev two_bytes : ℕ → Option (Bound × Bound)
two_bytes len = if ltb 2 len then some (included 1, included 2) else none

abbrev stores : Stores web
stores = record {
  range = λ m. ranges two_bytes;
  find_blob = λ u. none;
  data_url = λ u. none;
  read_file = λ u n. some (7 ∷ 8 ∷ 9 ∷ 6 ∷ []);
  header_value = λ v. some v;
}

get_ranged_bytes-Part_example :
    Part web stores
      (7 ∷ 8 ∷ 9 ∷ 6 ∷ [])
      (ranges two_bytes)
      (get_ranged_bytes web stores [] (7 ∷ 8 ∷ 9 ∷ 6 ∷ []))
get_ranged_bytes-Part_example =
    get_ranged_bytes-Part web stores [] (7 ∷ 8 ∷ 9 ∷ 6 ∷ []) (omega arith)

abbrev status_of : Option (Response web × ℕ) → Option (Option ℕ × Option (ResponseBody web))
status_of none = none
status_of (some (r, n)) = some (r.status, r.body)

ranged_file :
    status_of (scheme_fetch web stores (codes "file") (record start { method = get_method }) 0)
    ≡ some (some 206, some (bytes_body (8 ∷ 9 ∷ [])))
unfolding scheme_fetch
ranged_file = refl

-- The last bytes of a file, without a first index.
abbrev last_bytes : Stores web
last_bytes = record stores { range = λ m. ranges (λ len. some (unbounded, included 2)) }

-- A range past the end, which the crate headers does not check against the size.
abbrev past_end : Stores web
past_end = record stores { range = λ m. ranges (λ len. some (included 1, included 9)) }

no_first_index : get_ranged_bytes web last_bytes [] (7 ∷ 8 ∷ 9 ∷ 6 ∷ []) ≡ none
unfolding get_ranged_bytes
no_first_index = refl

beyond : get_ranged_bytes web past_end [] (7 ∷ 8 ∷ 9 ∷ 6 ∷ []) ≡ none
unfolding get_ranged_bytes
beyond = refl
