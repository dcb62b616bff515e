-- ===== src/Fetch/Main/Refusals.antt =====
-- Requests that are refused before anything is sent.
use spiderfire.Fetch.Tests.{
  is_same_origin, is_only_if_cached, is_error, is_own_scheme, is_http, is_bad_port, bad_ports,
  schemes,
}
use spiderfire.Fetch.Redirecting.{Outcome, done}
use spiderfire.Fetch.Tainting.{finish}
use spiderfire.Prelude.{
  Option, some, List, [], ◌∷◌, ℕ, zero, suc, any, ◌==◌, get_elem?, arith, codes, same, same-eq,
  is_member, Bool-cases, ◌⊎◌, inl, inr, ap, ◌≡◌, refl, Bool, true, false, not, ◌&&◌, ◌||◌,
  if◌then◌else◌, ltb, Text,
}
use spiderfire.Fetch.Web.{Web}
use spiderfire.Fetch.Requests.{Request}
use spiderfire.Fetch.Requests.Checks.{Checked}
use spiderfire.Fetch.Responses.{Response, network_error}
use spiderfire.Fetch.Main.{Fetched, main_fetch, main_step, by_scheme, is_blocked}
use spiderfire.Fetch.Options.{same_origin_mode, no_cors, error_redirect, manual}

module _ (w : Web) (version : Text)
    (scheme_fetch : Text → Request w → w.Net → Option (Response w × w.Net)) where
  open w use {scheme, port, Net}

  -- What the code tests of a request that it refuses.
  unfoldable pub is_refused : Request w → Bool
  is_refused q =
      is_same_origin q.mode
      || (not (is_own_scheme (scheme q.url))
          && (not (is_http (scheme q.url)) || is_blocked w version scheme_fetch q))

  abbrev pub web_schemes : List Text
  web_schemes = codes "http" ∷ codes "https" ∷ []

  abbrev pub known_schemes : List Text
  known_schemes = codes "about" ∷ codes "blob" ∷ codes "data" ∷ codes "file" ∷ web_schemes

  -- A request that is to be refused.
  pub data Refused (q : Request w) : Type 0 where
    same_origin_only : q.mode ≡ same_origin_mode → Refused q
    unknown_scheme : is_member (scheme q.url) known_schemes ≡ false → Refused q
    bad_port :
        (p i : ℕ)
        → is_member (scheme q.url) web_schemes ≡ true
        → port q.url ≡ some p
        → get_elem? bad_ports i ≡ some p
        → Refused q
    no_cors_redirect :
        is_member (scheme q.url) web_schemes ≡ true
        → q.mode ≡ no_cors
        → q.redirect ≡ error_redirect ⊎ q.redirect ≡ manual
        → Refused q

  unfoldable pub Failed : Net → Fetched w version → Type 0
  Failed net f = (is_error f.response.kind ≡ true) × (f.net ≡ net)

  or_true : (b : Bool) → b || true ≡ true
  or_true true = refl
  or_true false = refl

  impossible : {A : Type 0} → false ≡ true → A
  impossible h = absurd (clash h)
    where
      clash : false ≡ true → ⊥
      clash e = cc

  finish-error :
      (n : ℕ) (q : Request w) (net : Net)
      → Failed net (by_scheme w version scheme_fetch n q (network_error w, net))
  unfolding Failed finish network_error
  finish-error n q net = rw (or_true (ltb 0 n)) (refl, refl)

  -- The call ends with a response, and with one that failed.
  abbrev pub Fails : Net → Outcome (Fetched w version) → Type 0
  Fails net m = (f : Fetched w version) × (m ≡ done f) × Failed net f

  refused_if :
      (net : Net) (b : Bool) (m m' : Outcome (Fetched w version))
      → (b ≡ true → Fails net m)
      → (b ≡ false → Fails net m')
      → Fails net (if b then m else m')
  refused_if net true m m' h h' = h refl
  refused_if net false m m' h h' = h' refl

  is_refused-Fails :
      (fuel n : ℕ) (q : Request w) (net : Net)
      → is_refused q ≡ true
      → Fails net (main_fetch w version scheme_fetch (suc fuel) n q net)
  unfolding main_fetch main_step is_refused Failed
  is_refused-Fails fuel n q net h =
      refused_if net (is_same_origin q.mode) _ _ (λ a. (_, refl, finish-error n q net))
        (λ a.
          refused_if net (is_own_scheme (scheme q.url)) _ _ (λ b. impossible (rw (a, b) at h))
            (λ b.
              refused_if net (is_http (scheme q.url)) _ _
                (λ c.
                  refused_if net (is_blocked w version scheme_fetch q) _ _
                    (λ d. (_, refl, (refl, refl))) (λ d. impossible (rw (a, b, c, d) at h)))
                (λ c. (_, refl, finish-error n q net))))

  any-elem : (p i : ℕ) (xs : List ℕ) → get_elem? xs i ≡ some p → any (λ q. p == q) xs ≡ true
  any-elem p i [] e = cc
  any-elem p zero (x ∷ xs) e = ground (arith, e)
  any-elem p (suc i) (x ∷ xs) e = rw (any-elem p i xs e) (or_true (p == x))

  http_only : (s : Text) → is_member s web_schemes ≡ true → is_own_scheme s ≡ false
  unfolding is_own_scheme same
  http_only s h = elim (Bool-cases (same s (codes "http"))) [
    | inl y ↦ ap (λ t. is_member t schemes) (same-eq s (codes "http") y)
    | inr y ↦
        ap (λ t. is_member t schemes)
          (same-eq s (codes "https") (either (same s (codes "http")) (same s (codes "https")) y h))
  ]
    where
      either : (a b : Bool) → a ≡ false → a || (b || false) ≡ true → b ≡ true
      either a b e h = ground (arith, e, h)

  unknown : (s : Text) → is_member s known_schemes ≡ false → is_own_scheme s || is_http s ≡ false
  unfolding is_own_scheme is_http
  unknown s h = ground (arith, h)

  refuses :
      (a b c d : Bool) → b ≡ false → (c ≡ false) ⊎ (d ≡ true) → a || (not b && (not c || d)) ≡ true
  refuses a b c d e (inl h) = ground (arith, e, h)
  refuses a b c d e (inr h) = ground (arith, e, h)

  blocked :
      (q : Request w)
      → is_member (scheme q.url) web_schemes ≡ true
      → is_blocked w version scheme_fetch q ≡ true
      → is_refused q ≡ true
  unfolding is_refused
  blocked q h k =
      refuses (is_same_origin q.mode) _ (is_http (scheme q.url)) _ (http_only (scheme q.url) h)
        (inr k)

  Refused-is_refused : (q : Request w) → Refused q → is_refused q ≡ true
  unfolding is_refused is_blocked is_bad_port
  Refused-is_refused q (same_origin_only h) = rw h refl
  Refused-is_refused q (unknown_scheme h) =
      refuses (is_same_origin q.mode) (is_own_scheme (scheme q.url)) (is_http (scheme q.url))
        (is_blocked w version scheme_fetch q)
        (left (is_own_scheme (scheme q.url)) (is_http (scheme q.url)) (unknown (scheme q.url) h))
        (inl (
          right (is_own_scheme (scheme q.url)) (is_http (scheme q.url)) (unknown (scheme q.url) h)))
    where
      left : (a b : Bool) → a || b ≡ false → a ≡ false
      left a b h = ground (arith, h)

      right : (a b : Bool) → a || b ≡ false → b ≡ false
      right a b h = ground (arith, h)
  Refused-is_refused q (bad_port p i h e k) = blocked q h (rw (e, any-elem p i bad_ports k) refl)
  Refused-is_refused q (no_cors_redirect h e (inl k)) =
      blocked q h (rw (e, k) (or_true (is_bad_port (port q.url))))
  Refused-is_refused q (no_cors_redirect h e (inr k)) =
      blocked q h (rw (e, k) (or_true (is_bad_port (port q.url))))

  -- A request of mode same-origin, or of a URL whose scheme is none of about, blob, data, file,
  -- http and https, or of http or https with a port of the list of bad ports, or of http or https
  -- and mode no-cors with redirect mode error or manual, returns with an error response, and the
  -- network is as it was.
  pub main_fetch-Refused :
      (fuel n : ℕ) (q : Request w) (net : Net)
      → Refused q
      → (f : Fetched w version) × (main_fetch w version scheme_fetch (suc fuel) n q net ≡ done f)
        × ((is_error f.response.kind ≡ true) × (f.net ≡ net))
  unfolding Failed
  main_fetch-Refused fuel n q net h = is_refused-Fails fuel n q net (Refused-is_refused q h)

  pub main_fetch-only_if_cached :
      (fuel n : ℕ) (q : Request w) (net : Net)
      → Checked w q
      → is_only_if_cached q.cache ≡ true
      → Fails net (main_fetch w version scheme_fetch (suc fuel) n q net)
  unfolding is_refused
  main_fetch-only_if_cached fuel n q net c h = is_refused-Fails fuel n q net (rw (c.cache h) refl)
