-- ===== src/Fetch/Options/Texts.antt =====
-- The texts of the enumerations of a request: each is read back from its own text, and from no
-- other.
use Prim.Native.String.{String}
use text.Mathlib.TextEquality.{eq_iff}
use spiderfire.Prelude.{◌≡◌, ◌≢◌, refl, some, arith, ◌↔◌, subst}
use spiderfire.Fetch.Options.{
  ReferrerPolicy, parse_policy, print_policy, no_policy, no_referrer, no_referrer_when_downgrade,
  origin, origin_when_cross_origin, same_origin, strict_origin, strict_origin_when_cross_origin,
  unsafe_url, RequestMode, parse_mode, print_mode, same_origin_mode, cors, no_cors, navigate,
  websocket, RequestCredentials, parse_credentials, print_credentials, omit,
  same_origin_credentials, include, RequestCache, parse_cache, print_cache, default_cache, no_store,
  reload, no_cache, force_cache, only_if_cached, RequestRedirect, parse_redirect, print_redirect,
  follow, error_redirect, manual,
}

print-parse_policy :
    (s : String) (x : ReferrerPolicy) → parse_policy s ≡ some x → print_policy x ≡ s
unfolding parse_policy print_policy
print-parse_policy s x h = ground (
  arith,
  eq_iff s "",
  eq_iff s "no-referrer",
  eq_iff s "no-referrer-when-downgrade",
  eq_iff s "origin",
  eq_iff s "origin-when-cross-origin",
  eq_iff s "same-origin",
  eq_iff s "strict-origin",
  eq_iff s "strict-origin-when-cross-origin",
  eq_iff s "unsafe-url",
)

parse-print_policy : (x : ReferrerPolicy) → parse_policy (print_policy x) ≡ some x
unfolding parse_policy print_policy
parse-print_policy no_policy = refl
parse-print_policy no_referrer = refl
parse-print_policy no_referrer_when_downgrade = refl
parse-print_policy origin = refl
parse-print_policy origin_when_cross_origin = refl
parse-print_policy same_origin = refl
parse-print_policy strict_origin = refl
parse-print_policy strict_origin_when_cross_origin = refl
parse-print_policy unsafe_url = refl

print-parse_mode : (s : String) (x : RequestMode) → parse_mode s ≡ some x → print_mode x ≡ s
unfolding parse_mode print_mode
print-parse_mode s x h =
    ground (arith, eq_iff s "same-origin", eq_iff s "cors", eq_iff s "no-cors", eq_iff s "navigate")

parse-print_mode : (x : RequestMode) → x ≢ websocket → parse_mode (print_mode x) ≡ some x
unfolding parse_mode print_mode
parse-print_mode same_origin_mode n = refl
parse-print_mode cors n = refl
parse-print_mode no_cors n = refl
parse-print_mode navigate n = refl
parse-print_mode websocket n = absurd (n refl)

parse_mode-websocket : (s : String) → parse_mode s ≢ some websocket
unfolding parse_mode
parse_mode-websocket s h = ground (arith, h)

print-parse_credentials :
    (s : String) (x : RequestCredentials) → parse_credentials s ≡ some x → print_credentials x ≡ s
unfolding parse_credentials print_credentials
print-parse_credentials s x h =
    ground (arith, eq_iff s "omit", eq_iff s "same-origin", eq_iff s "include")

parse-print_credentials :
    (x : RequestCredentials) → parse_credentials (print_credentials x) ≡ some x
unfolding parse_credentials print_credentials
parse-print_credentials omit = refl
parse-print_credentials same_origin_credentials = refl
parse-print_credentials include = refl

print-parse_cache : (s : String) (x : RequestCache) → parse_cache s ≡ some x → print_cache x ≡ s
unfolding parse_cache print_cache
print-parse_cache s x h = ground (
  arith,
  eq_iff s "default",
  eq_iff s "no-store",
  eq_iff s "reload",
  eq_iff s "no-cache",
  eq_iff s "force-cache",
  eq_iff s "only-if-cached",
)

parse-print_cache : (x : RequestCache) → parse_cache (print_cache x) ≡ some x
unfolding parse_cache print_cache
parse-print_cache default_cache = refl
parse-print_cache no_store = refl
parse-print_cache reload = refl
parse-print_cache no_cache = refl
parse-print_cache force_cache = refl
parse-print_cache only_if_cached = refl

print-parse_redirect :
    (s : String) (x : RequestRedirect) → parse_redirect s ≡ some x → print_redirect x ≡ s
unfolding parse_redirect print_redirect
print-parse_redirect s x h = ground (arith, eq_iff s "follow", eq_iff s "error", eq_iff s "manual")

parse-print_redirect : (x : RequestRedirect) → parse_redirect (print_redirect x) ≡ some x
unfolding parse_redirect print_redirect
parse-print_redirect follow = refl
parse-print_redirect error_redirect = refl
parse-print_redirect manual = refl

-- What a text says about each kind of option.
abbrev pub Named : String → Type 0
Named s =
    ((x : ReferrerPolicy) → (parse_policy s ≡ some x) ↔ (print_policy x ≡ s))
    × ((x : RequestMode) → (parse_mode s ≡ some x) ↔ ((print_mode x ≡ s) × (x ≢ websocket)))
    × ((x : RequestCredentials) → (parse_credentials s ≡ some x) ↔ (print_credentials x ≡ s))
    × ((x : RequestCache) → (parse_cache s ≡ some x) ↔ (print_cache x ≡ s))
    × ((x : RequestRedirect) → (parse_redirect s ≡ some x) ↔ (print_redirect x ≡ s))

-- For every text, a referrer policy, credentials mode, cache mode or redirect mode is parsed from
-- it exactly if it is printed as it, and so is a request mode other than websocket, which no text
-- gives.
pub parse-print_iff : (s : String) → Named s
parse-print_iff s = (
  λ x. (print-parse_policy s x, λ p. subst (λ u. parse_policy u ≡ some x) p (parse-print_policy x)),
  λ x. (
    λ h. (
      print-parse_mode s x h,
      λ w. parse_mode-websocket s (subst (λ y. parse_mode s ≡ some y) w h),
    ),
    λ p. subst (λ u. parse_mode u ≡ some x) p.0 (parse-print_mode x p.1),
  ),
  λ x. (
    print-parse_credentials s x,
    λ p. subst (λ u. parse_credentials u ≡ some x) p (parse-print_credentials x),
  ),
  λ x. (print-parse_cache s x, λ p. subst (λ u. parse_cache u ≡ some x) p (parse-print_cache x)),
  λ x. (
    print-parse_redirect s x,
    λ p. subst (λ u. parse_redirect u ≡ some x) p (parse-print_redirect x),
  ),
)
