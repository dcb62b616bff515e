-- ===== src/Fetch/Tainting.antt =====
-- runtime/src/globals/fetch/mod.rs: what `main_fetch` does with a response before a script sees it.
pub mod Filtering
use spiderfire.Prelude.{
  ℕ, zero, suc, ◌+◌, ◌≡◌, Bool, true, false, not, ◌&&◌, ◌||◌, List, [], ◌∷◌, ◌++◌, Option, none,
  some, if◌then◌else◌, ◌==◌, ltb, leb, is_empty, any, retain, Text, codes, same, is_member,
}
use spiderfire.Fetch.Options.{
  ReferrerPolicy, parse_policy, RequestCredentials, omit, same_origin_credentials, include,
  RequestRedirect, follow, error_redirect, manual, ResponseKind, basic, cors_kind, default_kind,
  error_kind, opaque, opaque_redirect, ResponseTaint, basic_taint, cors_taint, opaque_taint,
}
use spiderfire.Fetch.Headers.{forbidden_response_headers, range_name}
use spiderfire.Fetch.Web.{
  Web, Method, get_method, head_method, post_method, put_method, connect_method, trace_method,
  other_method, contains_key,
}
use spiderfire.Fetch.Requests.{Request}
use spiderfire.Fetch.Responses.{Response, network_error}
use spiderfire.Fetch.Network.{http_network_fetch, streams}
use spiderfire.Fetch.Tests.{
  bad_ports, schemes, is_bad_port, is_http, is_own_scheme, is_error, is_opaque_taint, is_cors_taint,
  includes, is_follow, is_post, has_no_body, only_reads, is_status, is_redirection, is_null_body,
  is_navigate, is_same_origin, is_no_cors_mode, is_only_if_cached, is_forbidden, is_simple,
  unwrap_or, is_some, or,
}

module _ (w : Web) where
  open w use {
    Url, parse_url, scheme, port, username, password, fragment, set_fragment, size_hint, Net, maps,
    from_utf8,
  }
  open maps use {Map, empty, get_all, remove, keys}

  abbrev pub remove_each : List Text → Map → Map
  remove_each [] m = m
  remove_each (n ∷ ns) m = remove_each ns (remove n m)

  -- The CORS branch of `main_fetch`.
  abbrev pub allow_headers : Text
  allow_headers = codes "access-control-allow-headers"

  unfoldable pub is_allowed : Map → Text → Bool
  unfolding same
  is_allowed m name = any (λ v. same v name) (get_all allow_headers m)

  unfoldable pub allows_all : Map → Bool
  unfolding same
  allows_all m = any (λ v. same v (codes "*")) (get_all allow_headers m)

  abbrev pub is_multiple : Map → Text → Bool
  is_multiple m name = not (is_some (size_hint (get_all name m)))

  abbrev pub cors_names : RequestCredentials → Map → List Text
  cors_names credentials m =
      if not (includes credentials) && allows_all m
      then retain (is_multiple m) (keys m)
      else retain (is_allowed m) (keys m)

  unfoldable pub cors_filter : RequestCredentials → Map → Map
  cors_filter credentials m =
      remove_each forbidden_response_headers (remove_each (cors_names credentials m) m)

  abbrev pub with_map : Response w → Map → Response w
  with_map r m = record r { headers = record r.headers { headers = m } }

  abbrev pub blank : Response w → Response w
  blank r = record (with_map r empty) { url = none; status = none; status_text = none; body = none }

  abbrev pub filter_by : ResponseTaint → RequestCredentials → Response w → Response w
  filter_by basic_taint credentials r =
      record (with_map r (remove_each forbidden_response_headers r.headers.headers)) {
        kind = basic;
      }
  filter_by cors_taint credentials r =
      record (with_map r (cors_filter credentials r.headers.headers)) { kind = cors_kind }
  filter_by opaque_taint credentials r = record (blank r) { kind = opaque }

  abbrev pub drop_body : Request w → Response w → Response w
  drop_body q r =
      if has_no_body q.method || is_null_body r.status then record r { body = none } else r

  abbrev pub show : ResponseTaint → Bool → Request w → Response w → Response w
  show taint opaque_redirects q r =
      if opaque_redirects
      then record (blank r) { kind = opaque_redirect }
      else filter_by taint q.credentials (drop_body q r)

  abbrev pub hides_range : ResponseTaint → Response w → Bool
  hides_range taint r =
      is_opaque_taint taint
      && (is_status 206 r.status
          && (r.range_requested && not (contains_key maps range_name r.headers.headers)))

  -- What `main_fetch` does with the response.
  unfoldable pub finish : ResponseTaint → Bool → ℕ → Request w → Response w → Response w
  unfolding network_error cors_filter
  finish taint opaque_redirects redirections q r =
      if ltb 0 redirections || is_error r.kind
      then record r { redirected = ltb 0 redirections }
      else (let r1 = record r { url = some (unwrap_or r.url q.url) } in
          if not opaque_redirects && hides_range taint r1
          then record (network_error w) { url = r1.url }
          else show taint opaque_redirects q r1)
