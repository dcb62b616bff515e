-- ===== src/Fetch/Main/Ending.antt =====
-- A fetch ends: the redirects that are followed are bounded.
use spiderfire.Fetch.Tests.{is_same_origin, is_http, is_redirection, is_own_scheme}
use spiderfire.Fetch.Redirecting.{
  Outcome, done, panics, out_of_fuel, or_panics, Redirect, stop, go, redirect,
}
use spiderfire.Prelude.{
  ℕ, zero, suc, ◌+◌, ◌-◌, ◌≤◌, ◌<◌, Bool, true, false, Option, none, some, if◌then◌else◌, arith,
  length, Text,
}
use spiderfire.Fetch.Options.{RequestRedirect, follow, error_redirect, manual, ResponseTaint}
use spiderfire.Fetch.Web.{Web}
use spiderfire.Fetch.Requests.{Request}
use spiderfire.Fetch.Responses.{Response}
use spiderfire.Fetch.Network.{http_network_fetch}
use spiderfire.Fetch.Main.{
  by_own, Fetched, follow_redirect, by_redirect, http_fetch, by_http, main_step, main_fetch,
  is_blocked, taint_of,
}
use spiderfire.Fetch.Main.Outcomes.{Ends, bind-Ends, or_panics-Ends, if-Ends}
use spiderfire.Fetch.Main.Redirects.{Followed, redirect-Followed}

module _ (w : Web) (version : Text) where
  open w use {Url, scheme, size_hint, parse_url, from_utf8, Net, maps}
  open maps use {get_all}

  -- At most `k` locations more.
  abbrev pub More : ℕ → Request w → Fetched w version → Type 0
  More k q f = length f.request.locations ≤ length q.locations + k

  follow_redirect-Ends :
      (main : Request w → Net → Outcome (Fetched w version)) (taint : ResponseTaint) (n : ℕ)
      (q : Request w) (net : Net) (r : Response w) (next : Redirect w)
      → ((q' : Request w) (net' : Net) → n < 20 → Ends (More (20 - (n + 1)) q') (main q' net'))
      → Followed w version taint n q r next
      → Ends (More (20 - n) q) (follow_redirect w version main q net next)
  unfolding Ends Followed
  follow_redirect-Ends main taint n q net r (stop r') k p = omega arith
  follow_redirect-Ends main taint n q net r (go q') k p = weaker (main q' net) (k q' net p.few)
    where
      weaker :
          (m : Outcome (Fetched w version))
          → Ends (More (20 - (n + 1)) q') m
          → Ends (More (20 - n) q) m
      weaker (done f) h = omega (arith, h, p.few, p.once_more)
      weaker panics h = tt
      weaker out_of_fuel h = h

  by_redirect-Ends :
      (main : Request w → Net → Outcome (Fetched w version)) (taint : ResponseTaint) (n : ℕ)
      (q : Request w) (net : Net) (r : Response w) (mode : RequestRedirect)
      → ((q' : Request w) (net' : Net) → n < 20 → Ends (More (20 - (n + 1)) q') (main q' net'))
      → Ends (λ f. More (20 - n) q f.0) (by_redirect w version main taint n q net r mode)
  unfolding Ends
  by_redirect-Ends main taint n q net r follow k =
      bind-Ends (Followed w version taint n q r) (λ f. More (20 - n) q f.0) (redirect w taint n q r)
        _ (redirect-Followed w version taint n q r)
        (λ next p.
          bind-Ends (More (20 - n) q) (λ f. More (20 - n) q f.0)
            (follow_redirect w version main q net next) _
            (follow_redirect-Ends main taint n q net r next k p) (λ f h. h))
  by_redirect-Ends main taint n q net r error_redirect k = omega arith
  by_redirect-Ends main taint n q net r manual k = omega arith

  pub http_fetch-Ends :
      (main : Request w → Net → Outcome (Fetched w version)) (taint : ResponseTaint) (n : ℕ)
      (q : Request w) (net : Net)
      → ((q' : Request w) (net' : Net) → n < 20 → Ends (More (20 - (n + 1)) q') (main q' net'))
      → Ends (λ f. More (20 - n) q f.0) (http_fetch w version main taint n q net)
  unfolding http_fetch Ends
  http_fetch-Ends main taint n q net k =
      bind-Ends (λ a. Unit) (λ f. More (20 - n) q f.0)
        (or_panics (http_network_fetch w version q net)) _
        (or_panics-Ends (http_network_fetch w version q net))
        (λ a u. at (is_redirection a.0.status) a.0 a.1)
    where
      at :
          (b : Bool) (r : Response w) (net' : Net)
          → Ends
              (λ f. More (20 - n) q f.0)
              (if b
                then by_redirect w version main taint n q net' r q.redirect
                else done (record { response = r; request = q; net = net' }, false))
      at true r net' = by_redirect-Ends main taint n q net' r q.redirect k
      at false r net' = omega arith

  module _ (scheme_fetch : Text → Request w → Net → Option (Response w × Net)) where
    by_http-Ends :
        (main : Request w → Net → Outcome (Fetched w version)) (n : ℕ) (q : Request w) (net : Net)
        → ((q' : Request w) (net' : Net) → n < 20 → Ends (More (20 - (n + 1)) q') (main q' net'))
        → Ends (More (20 - n) q) (by_http w version scheme_fetch main n q net)
    unfolding Ends
    by_http-Ends main n q net k =
        if-Ends (More (20 - n) q) (is_blocked w version scheme_fetch q) _ _ (omega arith) (λ b.
          bind-Ends (λ f. More (20 - n) q f.0) (More (20 - n) q)
            (http_fetch w version main (taint_of w version scheme_fetch q) n q net) _
            (http_fetch-Ends main (taint_of w version scheme_fetch q) n q net k) (λ f h. h))

    by_own-Ends :
        (n : ℕ) (q : Request w) (o : Option (Response w × Net))
        → Ends (More (20 - n) q) (by_own w version scheme_fetch n q o)
    unfolding Ends
    by_own-Ends n q none = tt
    by_own-Ends n q (some a) = omega arith

    main_step-Ends :
        (main : Request w → Net → Outcome (Fetched w version)) (n : ℕ) (q : Request w) (net : Net)
        → ((q' : Request w) (net' : Net) → n < 20 → Ends (More (20 - (n + 1)) q') (main q' net'))
        → Ends (More (20 - n) q) (main_step w version scheme_fetch main n q net)
    unfolding main_step Ends
    main_step-Ends main n q net k =
        if-Ends (More (20 - n) q) (is_same_origin q.mode) _ _ (omega arith) (λ a.
          if-Ends (More (20 - n) q) (is_own_scheme (scheme q.url)) _ _
            (by_own-Ends n q (scheme_fetch (scheme q.url) q net))
            (λ b.
              if-Ends (More (20 - n) q) (is_http (scheme q.url)) _ _ (by_http-Ends main n q net k)
                (λ c. omega arith)))

    -- A fetch that has followed n redirects, n at most 20, and has fuel for 21 - n more calls
    -- either panics or returns, and then it has visited at most 20 - n locations more: it never
    -- runs out of fuel.
    pub main_fetch-Ends :
        (fuel n : ℕ) (q : Request w) (net : Net)
        → 21 ≤ fuel + n
        → n ≤ 20
        → Ends (More (20 - n) q) (main_fetch w version scheme_fetch fuel n q net)
    unfolding main_fetch Ends
    main_fetch-Ends zero n q net a b = omega (arith, a, b)
    main_fetch-Ends (suc fuel) n q net a b =
        main_step-Ends (main_fetch w version scheme_fetch fuel (n + 1)) n q net
          (λ q' net' c. main_fetch-Ends fuel (n + 1) q' net' (omega (arith, a)) (omega (arith, c)))
