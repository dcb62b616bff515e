-- ===== src/Fetch/Redirecting.antt =====
-- runtime/src/globals/fetch/mod.rs: `http_redirect_fetch`.
use spiderfire.Prelude.{
  ℕ, zero, suc, Bool, not, ◌&&◌, ◌||◌, List, [], ◌∷◌, ◌++◌, Option, none, some, if◌then◌else◌, leb,
  is_empty, Text, codes,
}
use spiderfire.Fetch.Options.{ReferrerPolicy, parse_policy, ResponseTaint}
use spiderfire.Fetch.Web.{Web, Method, get_method}
use spiderfire.Fetch.Requests.{Request}
use spiderfire.Fetch.Responses.{Response, network_error}
use spiderfire.Fetch.Network.{streams}
use spiderfire.Fetch.Tests.{
  is_http, is_cors_taint, is_post, only_reads, is_status, unwrap_or, is_some,
}
use spiderfire.Fetch.Tainting.{remove_each}

-- How a call ends: with a value, with a panic, or not within the fuel.
pub data Outcome {ℓ} (A : Type ℓ) : Type ℓ where
  done : A → Outcome A
  panics out_of_fuel : Outcome A

infixl 4 ◌>>=◌
abbrev pub ◌>>=◌ {κ μ} : {T : Type κ} {U : Type μ} → Outcome T → (T → Outcome U) → Outcome U
out_of_fuel >>= next = out_of_fuel
panics >>= next = panics
done x >>= next = next x

abbrev pub or_panics {ℓ} : {A : Type ℓ} → Option A → Outcome A
or_panics none = panics
or_panics (some a) = done a

module _ (w : Web) where
  open w use {
    Url, parse_url, scheme, port, username, password, fragment, set_fragment, size_hint, Net, maps,
    from_utf8,
  }
  open maps use {Map, empty, get_all, remove, keys}

  -- `http_redirect_fetch` up to its call of `main_fetch`: the response, or the request to follow.
  pub data Redirect : Type 0 where
    stop : Response w → Redirect
    go : Request w → Redirect

  abbrev pub with_fragment : Option Url → Url → Url
  with_fragment none url = if is_some (fragment url) then url else set_fragment none url
  with_fragment (some base) url =
      if is_some (fragment url) then url else set_fragment (fragment base) url

  abbrev pub becomes_get : Option ℕ → Method → Bool
  becomes_get status method =
      ((is_status 301 status || is_status 302 status) && is_post method)
      || (is_status 303 status && not (only_reads method))

  abbrev pub content_names : List Text
  content_names =
      codes "content-encoding"
      ∷ codes "content-language"
      ∷ codes "content-location"
      ∷ codes "content-type"
      ∷ []

  abbrev pub to_get : Request w → Request w
  to_get q = record q {
    method = get_method;
    body = none;
    headers = record q.headers { headers = remove_each w content_names q.headers.headers };
  }

  -- The last value that is not empty and names a policy.
  -- A value that is not UTF-8 makes it panic.
  abbrev pub value_policy : Text → Outcome (Option ReferrerPolicy)
  value_policy v =
      if is_empty v then done none else (do t ← or_panics (from_utf8 v); done (parse_policy t))

  unfoldable pub find_policy : List Text → Outcome (Option ReferrerPolicy)
  unfolding parse_policy
  find_policy [] = done none
  find_policy (v ∷ vs) = do
    later ← find_policy vs
    if is_some later then done later else value_policy v

  abbrev pub redirected : Url → Option ℕ → Option ReferrerPolicy → Request w → Request w
  redirected location status policy q =
      let q1 = if becomes_get status q.method then to_get q else q in
      record q1 {
        locations = q1.locations ++ location ∷ [];
        url = location;
        referrer_policy = unwrap_or policy q1.referrer_policy;
      }

  unfoldable pub redirected_request : Url → Option ℕ → List Text → Request w → Outcome (Request w)
  unfolding find_policy
  redirected_request location status policies q = do
    policy ← find_policy policies
    done (redirected location status policy q)

  abbrev pub has_credentials : Url → Bool
  has_credentials u = not (is_empty (username u)) || is_some (password u)

  unfoldable pub redirect_to : ResponseTaint → ℕ → Request w → Response w → Url → Outcome Redirect
  unfolding network_error
  redirect_to taint redirections q r location =
      if not (is_http (scheme location))
      then done (stop (network_error w))
      else if leb 20 redirections
      then done (stop (network_error w))
      else if is_cors_taint taint && has_credentials location
      then done (stop (network_error w))
      else if not (is_status 303 r.status) && streams q.body
      then done (stop (network_error w))
      else (do
        q' ←
            redirected_request location r.status
              (get_all (codes "referrer-policy") r.headers.headers) q
        done (go q'))

  abbrev pub parsed_redirect :
      ResponseTaint → ℕ → Request w → Response w → Option Url → Outcome Redirect
  parsed_redirect taint redirections q r none = done (stop (network_error w))
  parsed_redirect taint redirections q r (some url) =
      redirect_to taint redirections q r (with_fragment r.url url)

  -- The bound of the iterator over the values, and the values; a location that is not UTF-8 makes
  -- it panic.
  abbrev pub choose_redirect :
      ResponseTaint → ℕ → Request w → Response w → Option ℕ → List Text → Outcome Redirect
  choose_redirect taint redirections q r none vs = done (stop (network_error w))
  choose_redirect taint redirections q r (some zero) vs = done (stop r)
  choose_redirect taint redirections q r (some (suc n)) [] = panics
  choose_redirect taint redirections q r (some (suc n)) (v ∷ vs) = do
    t ← or_panics (from_utf8 v)
    parsed_redirect taint redirections q r (parse_url r.url (codes t))

  unfoldable pub redirect : ResponseTaint → ℕ → Request w → Response w → Outcome Redirect
  unfolding redirect_to
  redirect taint redirections q r =
      let values = get_all (codes "location") r.headers.headers in
      choose_redirect taint redirections q r (size_hint values) values
