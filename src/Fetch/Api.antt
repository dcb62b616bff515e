-- ===== src/Fetch/Api.antt =====
-- runtime/src/globals/fetch/mod.rs: the function `fetch` of scripts and `fetch_internal`.
pub mod Settled
use spiderfire.Prelude.{
  ℕ, suc, ◌+◌, ◌-◌, ◌≡◌, Bool, true, false, List, [], ◌∷◌, ◌++◌, Option, none, some, if◌then◌else◌,
  Text, codes,
}
use spiderfire.Fetch.Headers.{Result, ok, err, Error}
use spiderfire.Fetch.Web.{Web, append_missing}
use spiderfire.Fetch.Tests.{is_error}
use spiderfire.Fetch.Requests.{Request, RequestInfo, RequestInit, constructor}
use spiderfire.Fetch.Responses.{Response}
use spiderfire.Fetch.Redirecting.{Outcome, done, panics, out_of_fuel}
use spiderfire.Fetch.Main.{Fetched, main_fetch}

module _ (w : Web) (version : Text)
    (scheme_fetch : Text → Request w → w.Net → Option (Response w × w.Net)) where
  open w use {Net, maps, digits}

  -- The locales after the first one, with their indices.
  abbrev pub weighted : ℕ → List Text → Text
  weighted index [] = []
  weighted index (locale ∷ rest) =
      (b',' ∷ locale) ++ (codes ";q=0." ++ (digits (1000 - index) ++ weighted (suc index) rest))

  abbrev pub locale_string : List Text → Text
  locale_string [] = codes "*"
  locale_string (locale ∷ rest) = locale ++ weighted 1 rest

  unfoldable pub prepare : List Text → Request w → Request w
  prepare locales q =
      let m = append_missing maps (codes "accept") (codes "*/*") q.headers.headers in
      record q {
        headers = record q.headers {
          headers = append_missing maps (codes "accept-language") (locale_string locales) m;
        };
      }

  -- How the promise of a fetch ends.
  pub data Promise : Type 0 where
    rejected : Error → Promise
    aborted : ℕ → Promise
    network_failed panicked unfinished : Promise
    fulfilled : Response w → Promise

  -- What the first of `main_fetch` and the signal to be ready gives: `race` is the reason of the
  -- signal, if it is the signal. A fetch that the signal ends is dropped where it stands.
  unfoldable pub fetch_internal : Option ℕ → Outcome (Fetched w version) → Promise
  fetch_internal (some r) o = aborted r
  fetch_internal none (done f) =
      if is_error f.response.kind then network_failed else fulfilled f.response
  fetch_internal none panics = panicked
  fetch_internal none out_of_fuel = unfinished

  -- `reason` gives the reason of a signal that is aborted before the fetch, and `race` that of one
  -- that is aborted before the fetch ends.
  abbrev pub by_reason : ℕ → List Text → (ℕ → Option ℕ) → Request w → Net → Option ℕ → Promise
  by_reason fuel locales race q net (some r) = aborted r
  by_reason fuel locales race q net none =
      fetch_internal (race q.signal)
        (main_fetch w version scheme_fetch fuel 0 (prepare locales q) net)

  abbrev pub by_request :
      ℕ → List Text → (ℕ → Option ℕ) → (ℕ → Option ℕ) → Net → Result (Request w) → Promise
  by_request fuel locales reason race net (err e) = rejected e
  by_request fuel locales reason race net (ok q) =
      by_reason fuel locales race q net (reason q.signal)

  unfoldable pub fetch :
      ℕ
      → List Text
      → (ℕ → Option ℕ)
      → (ℕ → Option ℕ)
      → RequestInfo w
      → Option (RequestInit w)
      → ℕ
      → Net
      → Promise
  unfolding fetch_internal prepare main_fetch constructor
  fetch fuel locales reason race info init signal net =
      by_request fuel locales reason race net (constructor w info init signal)
