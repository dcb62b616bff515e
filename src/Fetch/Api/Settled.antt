-- ===== src/Fetch/Api/Settled.antt =====
-- What a script gets from a fetch.
use spiderfire.Prelude.{
  ℕ, ◌≤◌, ◌≡◌, ◌⊎◌, inl, inr, Bool, true, false, List, Option, none, some, Text, if◌then◌else◌,
  refl,
}
use spiderfire.Fetch.Headers.{Result, ok, err}
use spiderfire.Fetch.Web.{Web}
use spiderfire.Fetch.Tests.{is_error}
use spiderfire.Fetch.Requests.{Request, RequestInfo, RequestInit, constructor}
use spiderfire.Fetch.Responses.{Response}
use spiderfire.Fetch.Redirecting.{Outcome, done, panics, out_of_fuel}
use spiderfire.Fetch.Main.{Fetched}
use spiderfire.Fetch.Main.Outcomes.{Ends}
use spiderfire.Fetch.Main.Showing.{Shown, Final, main_fetch-Shown}
use spiderfire.Fetch.Api.{
  Promise, rejected, aborted, network_failed, panicked, unfinished, fulfilled, fetch_internal,
  by_reason, by_request, fetch, prepare,
}

module _ (w : Web) (version : Text)
    (scheme_fetch : Text → Request w → w.Net → Option (Response w × w.Net)) where
  open w use {Net}

  -- The promise is settled, unless the code panics, and its response is one that a script may see.
  pub Settled : (ℕ → Option ℕ) → (ℕ → Option ℕ) → Promise w version scheme_fetch → Type 0
  Settled reason race (rejected e) = Unit
  Settled reason race (aborted r) = (s : ℕ) × ((reason s ≡ some r) ⊎ (race s ≡ some r))
  Settled reason race network_failed = Unit
  Settled reason race panicked = Unit
  Settled reason race unfinished = ⊥
  Settled reason race (fulfilled r) = (is_error r.kind ≡ false) × Shown w version r

  fulfilled-Settled :
      (reason race : ℕ → Option ℕ) (b : Bool) (r : Response w)
      → is_error r.kind ≡ b
      → Shown w version r
      → Settled reason race (if b then network_failed else fulfilled r)
  unfolding Settled
  fulfilled-Settled reason race true r e s = tt
  fulfilled-Settled reason race false r e s = (e, s)

  fetch_internal-Settled :
      (reason race : ℕ → Option ℕ) (s : ℕ) (x : Option ℕ) (o : Outcome (Fetched w version))
      → race s ≡ x
      → Ends (Final w version scheme_fetch) o
      → Settled reason race (fetch_internal w version scheme_fetch x o)
  unfolding fetch_internal Settled Ends Final
  fetch_internal-Settled reason race s (some r) o e h = (s, inr e)
  fetch_internal-Settled reason race s none (done f) e h =
      fulfilled-Settled reason race (is_error f.response.kind) f.response refl h
  fetch_internal-Settled reason race s none panics e h = tt
  fetch_internal-Settled reason race s none out_of_fuel e h = h

  -- A fetch with fuel 21 that does not panic settles its promise: it is rejected with an error of
  -- the request, a network error, or the reason of a signal that was aborted before the fetch or
  -- before its end; or it is fulfilled with a response whose kind is basic, cors or
  -- opaqueredirect, and which has no header of a name that is forbidden in responses (set-cookie
  -- and set-cookie2), whatever the network and the other schemes answered.
  pub fetch-Settled :
      (fuel : ℕ) (locales : List Text) (reason race : ℕ → Option ℕ) (info : RequestInfo w)
      (init : Option (RequestInit w)) (signal : ℕ) (net : Net)
      → 21 ≤ fuel
      → Settled reason race
          (fetch w version scheme_fetch fuel locales reason race info init signal net)
  unfolding fetch Settled
  fetch-Settled fuel locales reason race info init signal net h =
      by_result (constructor w info init signal)
    where
      at_signal :
          (q : Request w) (o : Option ℕ)
          → reason q.signal ≡ o
          → Settled reason race (by_reason w version scheme_fetch fuel locales race q net o)
      at_signal q none e = fetch_internal-Settled reason race q.signal (race q.signal) _ refl (
          main_fetch-Shown w version scheme_fetch fuel (prepare w version scheme_fetch locales q)
            net h)
      at_signal q (some r) e = (q.signal, inl e)

      by_result :
          (c : Result (Request w))
          → Settled reason race (by_request w version scheme_fetch fuel locales reason race net c)
      by_result (err e) = tt
      by_result (ok q) = at_signal q (reason q.signal) refl
