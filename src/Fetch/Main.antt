-- ===== src/Fetch/Main.antt =====
-- runtime/src/globals/fetch/mod.rs: `main_fetch` and `http_fetch`. The request that they mutate is
-- passed on with the response.
pub mod Showing
pub mod Outcomes
pub mod Redirects
pub mod Ending
pub mod Refusals
use spiderfire.Prelude.{
  ℕ, zero, suc, ◌+◌, ◌≡◌, Bool, true, false, not, ◌&&◌, ◌||◌, List, [], ◌∷◌, ◌++◌, Option, none,
  some, if◌then◌else◌, ◌==◌, ltb, leb, is_empty, any, retain, Text, codes, same, is_member,
}
use spiderfire.Fetch.Options.{
  ReferrerPolicy, parse_policy, RequestCredentials, omit, same_origin_credentials, include,
  RequestRedirect, follow, error_redirect, manual, ResponseKind, basic, cors_kind, default_kind,
  error_kind, opaque, opaque_redirect, ResponseTaint, basic_taint, cors_taint, opaque_taint,
}
use spiderfire.Fetch.Headers.{forbidden_response_headers, range_name}
use spiderfire.Fetch.Web.{
  Web, Method, get_method, head_method, post_method, put_method, connect_method, trace_method,
  other_method, contains_key,
}
use spiderfire.Fetch.Requests.{Request}
use spiderfire.Fetch.Responses.{Response, network_error}
use spiderfire.Fetch.Network.{http_network_fetch, streams}
use spiderfire.Fetch.Tests.{
  bad_ports, schemes, is_bad_port, is_http, is_own_scheme, is_error, is_opaque_taint, is_cors_taint,
  includes, is_follow, is_post, has_no_body, only_reads, is_status, is_redirection, is_null_body,
  is_navigate, is_same_origin, is_no_cors_mode, is_only_if_cached, is_forbidden, is_simple,
  unwrap_or, is_some, or,
}
use spiderfire.Fetch.Tainting.{
  remove_each, allow_headers, is_allowed, allows_all, is_multiple, cors_names, cors_filter,
  with_map, blank, filter_by, drop_body, show, hides_range, finish,
}
use spiderfire.Fetch.Redirecting.{
  Outcome, done, panics, out_of_fuel, ◌>>=◌, or_panics, with_fragment, becomes_get, content_names,
  to_get, value_policy, find_policy, redirected_request, has_credentials, redirect_to,
  parsed_redirect, choose_redirect, redirect, Redirect, stop, go,
}

module _ (w : Web) (version : Text) where
  open w use {
    Url, parse_url, scheme, port, username, password, fragment, set_fragment, size_hint, Net, maps,
    from_utf8,
  }
  open maps use {Map, empty, get_all, remove, keys}

  pub record Fetched : Type 0 where
    pub response : Response w
    pub request : Request w
    pub net : Net

  -- `main_fetch` is passed in, so that the three functions are defined one after the other.
  abbrev pub follow_redirect :
      (Request w → Net → Outcome Fetched) → Request w → Net → Redirect w → Outcome Fetched
  follow_redirect main q net (stop r) = done (record { response = r; request = q; net = net })
  follow_redirect main q net (go q') = main q' net

  abbrev pub by_redirect :
      (Request w → Net → Outcome Fetched)
      → ResponseTaint
      → ℕ
      → Request w
      → Net
      → Response w
      → RequestRedirect
      → Outcome (Fetched × Bool)
  by_redirect main taint redirections q net r follow = do
    next ← redirect w taint redirections q r
    f ← follow_redirect main q net next
    done (f, false)
  by_redirect main taint redirections q net r error_redirect =
      done (record { response = network_error w; request = q; net = net }, false)
  by_redirect main taint redirections q net r manual =
      done (record { response = r; request = q; net = net }, true)

  unfoldable pub http_fetch :
      (Request w → Net → Outcome Fetched)
      → ResponseTaint
      → ℕ
      → Request w
      → Net
      → Outcome (Fetched × Bool)
  unfolding http_network_fetch redirect
  http_fetch main taint redirections q net = do
    a ← or_panics (http_network_fetch w version q net)
    if is_redirection a.0.status
        then by_redirect main taint redirections q a.1 a.0 q.redirect
        else done (record { response = a.0; request = q; net = a.1 }, false)

  module _ (scheme_fetch : Text → Request w → Net → Option (Response w × Net)) where
    abbrev pub finished : ResponseTaint → ℕ → Fetched × Bool → Fetched
    finished taint redirections f = record f.0 {
      response = finish w taint f.1 redirections f.0.request f.0.response;
    }

    abbrev pub ended : Request w → Net → Response w → Fetched
    ended q net r = record { response = r; request = q; net = net }

    -- Whether a request for the web is refused at once.
    unfoldable pub is_blocked : Request w → Bool
    is_blocked q =
        is_bad_port (port q.url) || (is_no_cors_mode q.mode && not (is_follow q.redirect))

    abbrev pub taint_of : Request w → ResponseTaint
    taint_of q = if is_no_cors_mode q.mode then basic_taint else cors_taint

    abbrev pub by_http : (Request w → Net → Outcome Fetched) → ℕ → Request w → Net → Outcome Fetched
    by_http main redirections q net =
        if is_blocked q then done (ended q net (network_error w)) else (do
          f ← http_fetch main (taint_of q) redirections q net
          done (finished (taint_of q) redirections f))

    abbrev pub by_scheme : ℕ → Request w → Response w × Net → Fetched
    by_scheme redirections q a = ended q a.1 (finish w basic_taint false redirections q a.0)

    -- None is a panic of `scheme_fetch`.
    abbrev pub by_own : ℕ → Request w → Option (Response w × Net) → Outcome Fetched
    by_own redirections q none = panics
    by_own redirections q (some a) = done (by_scheme redirections q a)

    unfoldable pub main_step :
        (Request w → Net → Outcome Fetched) → ℕ → Request w → Net → Outcome Fetched
    unfolding http_fetch finish network_error
    main_step main redirections q net =
        if is_same_origin q.mode
        then done (by_scheme redirections q (network_error w, net))
        else if is_own_scheme (scheme q.url)
        then by_own redirections q (scheme_fetch (scheme q.url) q net)
        else if is_http (scheme q.url)
        then by_http main redirections q net
        else done (by_scheme redirections q (network_error w, net))

    -- The fuel is for the redirects.
    unfoldable pub main_fetch : ℕ → ℕ → Request w → Net → Outcome Fetched
    main_fetch zero redirections q net = out_of_fuel
    main_fetch (suc fuel) redirections q net =
        main_step (main_fetch fuel (redirections + 1)) redirections q net
