-- ===== src/Fetch/Requests.antt =====
-- runtime/src/globals/fetch/request/mod.rs: `Request`. The object of its headers and the object of
-- its signal are their contents and its number.
pub mod Checks
use spiderfire.Prelude.{
  ℕ, ◌≡◌, Bool, true, false, not, ◌&&◌, ◌||◌, List, [], ◌∷◌, Option, none, some, if◌then◌else◌,
  is_empty, Text, codes, same, uppercase,
}
use spiderfire.Fetch.Options.{
  ReferrerPolicy, no_policy, RequestMode, same_origin_mode, cors, no_cors, navigate, websocket,
  RequestCredentials, same_origin_credentials, RequestCache, default_cache, no_store, reload,
  no_cache, force_cache, only_if_cached, RequestRedirect, follow,
}
use spiderfire.Fetch.Headers.{
  Result, ok, err, ◌>>=◌, or_error, Error, url_credentials, invalid_url, non_null_window,
  navigate_mode, invalid_method, forbidden_method, cache_mode, no_cors_method, body_used,
  HeadersKind, request_kind, request_no_cors,
}
use spiderfire.Fetch.Headers.Methods.{Headers, HeadersInit, into_headers, no_init}
use spiderfire.Fetch.Tests.{
  is_navigate, is_same_origin, is_no_cors_mode, is_only_if_cached, is_forbidden, is_simple,
  unwrap_or, is_some, or,
}
use spiderfire.Fetch.Web.{
  Web, Method, get_method, head_method, post_method, put_method, connect_method, trace_method,
  other_method, FetchBody, to_http_body, add_content_type,
}

module _ (w : Web) where
  open w use {Url, parse_url, username, password, parse_method, maps}

  pub data Referrer : Type 0 where
    no_referrer_at_all client : Referrer
    referrer_url : Url → Referrer

  -- `Referrer::from_str`
  abbrev pub referrer_of : Option Url → Result Referrer
  referrer_of none = err invalid_url
  referrer_of (some url) =
      if same (w.scheme url) (codes "about") && same (w.path url) (codes "client")
      then ok client
      else ok (referrer_url url)

  unfoldable pub parse_referrer : Text → Result Referrer
  unfolding same
  parse_referrer s = if is_empty s then ok no_referrer_at_all else referrer_of (parse_url none s)

  unfoldable pub print_referrer : Referrer → Text
  print_referrer no_referrer_at_all = codes "no-referrer"
  print_referrer client = codes "about:client"
  print_referrer (referrer_url url) = w.url_text url

  pub record Request : Type 0 where
    pub headers : Headers maps
    pub body : Option FetchBody
    pub method : Method
    pub url : Url
    pub locations : List Url
    pub referrer : Referrer
    pub referrer_policy : ReferrerPolicy
    pub mode : RequestMode
    pub credentials : RequestCredentials
    pub cache : RequestCache
    pub redirect : RequestRedirect
    pub integrity : Text
    pub unsafe_request : Bool
    pub keepalive : Bool
    pub client_window : Bool
    pub signal : ℕ

  -- The headers of a request that has none yet, whose object is null.
  abbrev pub no_headers : Headers maps
  no_headers = record { headers = maps.empty; kind = request_kind }

  -- `Clone`: `locations` is never empty, the url stands for what `unwrap` refuses.
  abbrev pub last_of : Url → List Url → Url
  last_of u [] = u
  last_of u (v ∷ vs) = last_of v vs

  unfoldable pub clone : Request → Request
  clone r =
      let url = last_of r.url r.locations in
      record r { headers = no_headers; url = url; locations = url ∷ []; unsafe_request = true }

  pub data RequestInfo : Type 0 where
    of_request : Request → RequestInfo
    of_text : Text → RequestInfo

  -- `window` is whether the value is null.
  pub record RequestInit : Type 0 where
    pub method : Option Text
    pub headers : Option (HeadersInit maps)
    pub body : Option FetchBody
    pub referrer : Option Referrer
    pub referrer_policy : Option ReferrerPolicy
    pub mode : Option RequestMode
    pub credentials : Option RequestCredentials
    pub cache : Option RequestCache
    pub redirect : Option RequestRedirect
    pub integrity : Option Text
    pub keepalive : Option Bool
    pub signal : Option ℕ
    pub window : Option Bool

  -- `Request::constructor`, in the order of its parts; `signal` is the signal that is made.
  unfoldable pub new_request : Url → ℕ → Request
  new_request url signal = record {
    headers = no_headers;
    body = none;
    method = get_method;
    url = url;
    locations = url ∷ [];
    referrer = client;
    referrer_policy = no_policy;
    mode = no_cors;
    credentials = same_origin_credentials;
    cache = default_cache;
    redirect = follow;
    integrity = [];
    unsafe_request = false;
    keepalive = false;
    client_window = true;
    signal = signal;
  }

  -- The request and `fallback_cors`
  unfoldable pub base_of : RequestInfo → ℕ → Result (Request × Bool)
  unfolding clone new_request
  base_of (of_request r) signal = ok (clone r, false)
  base_of (of_text text) signal = do
    url ← or_error invalid_url (parse_url none text)
    if not (is_empty (username url)) || is_some (password url)
        then err url_credentials
        else ok (new_request url signal, true)

  abbrev pub check_window : Option Bool → Request → Result Request
  check_window none r = ok r
  check_window (some is_null) r =
      if is_null then ok (record r { client_window = false }) else err non_null_window

  abbrev pub fallback : Bool → Option RequestMode
  fallback fallback_cors = if fallback_cors then some cors else none

  abbrev pub no_navigate : Request → Request
  no_navigate r = if is_navigate r.mode then record r { mode = same_origin_mode } else r

  abbrev pub set_mode : Option RequestMode → Request → Result Request
  set_mode none r = ok r
  set_mode (some mode) r =
      if is_navigate mode then err navigate_mode else ok (record r { mode = mode })

  abbrev pub set_options : RequestInit → Request → Request
  set_options i r = record r {
    credentials = unwrap_or i.credentials r.credentials;
    cache = unwrap_or i.cache r.cache;
    redirect = unwrap_or i.redirect r.redirect;
    integrity = unwrap_or i.integrity r.integrity;
    keepalive = unwrap_or i.keepalive r.keepalive;
    signal = unwrap_or i.signal r.signal;
  }

  abbrev pub set_method : Option Text → Request → Result Request
  set_method none r = ok r
  set_method (some text) r = do
    method ← or_error invalid_method (parse_method (uppercase text))
    if is_forbidden method then err forbidden_method else ok (record r { method = method })

  abbrev pub set_referrer : RequestInit → Request → Request
  set_referrer i r = record r {
    referrer = unwrap_or i.referrer r.referrer;
    referrer_policy = unwrap_or i.referrer_policy r.referrer_policy;
  }

  unfoldable pub apply_init : RequestInit → Bool → Request → Result Request
  apply_init i fallback_cors r = do
    r1 ← check_window i.window r
    r2 ← set_mode (or i.mode (fallback fallback_cors)) (set_referrer i (no_navigate r1))
    set_method i.method (set_options i r2)

  unfoldable pub check_request : Request → Result Request
  check_request r =
      if is_only_if_cached r.cache && not (is_same_origin r.mode)
      then err cache_mode
      else if is_no_cors_mode r.mode && not (is_simple r.method)
      then err no_cors_method
      else ok r

  abbrev pub kind_of : RequestMode → HeadersKind
  kind_of mode = if is_no_cors_mode mode then request_no_cors else request_kind

  abbrev pub init_headers : Option (HeadersInit maps) → HeadersInit maps
  init_headers none = no_init
  init_headers (some headers) = headers

  abbrev pub with_body : Option FetchBody → Headers maps → Request → Request
  with_body none hs r = record r { headers = hs }
  with_body (some b) hs r = record r {
    headers = record hs { headers = add_content_type maps b.kind hs.headers };
    body = some b;
  }

  unfoldable pub finish : Option (HeadersInit maps) → Option FetchBody → Request → Result Request
  unfolding into_headers
  finish headers body r = do
    checked ← check_request r
    hs ← into_headers maps (init_headers headers) maps.empty (kind_of checked.mode)
    ok (with_body body hs checked)

  unfoldable pub constructor : RequestInfo → Option RequestInit → ℕ → Result Request
  unfolding base_of
  constructor info none signal = do b ← base_of info signal; finish none none b.0
  constructor info (some i) signal = do
    b ← base_of info signal
    r ← apply_init i b.1 b.0
    finish i.headers i.body r

  -- `get_referrer` and `get_referrer_policy`
  unfoldable pub get_referrer : Request → Text
  unfolding print_referrer
  get_referrer r = print_referrer r.referrer

  unfoldable pub get_referrer_policy : Request → Text
  unfolding print_referrer
  get_referrer_policy r = print_referrer r.referrer

  unfoldable pub get_body_used : Request → Bool
  get_body_used r = not (is_some r.body)

  -- `read_to_bytes`, which every reading method calls: the bytes, and the request without a body.
  unfoldable pub read_to_bytes : Request → Result (List ℕ) × Request
  read_to_bytes r = (bytes_of r.body, record r { body = none })
    where
      bytes_of : Option FetchBody → Result (List ℕ)
      bytes_of none = err body_used
      bytes_of (some b) = ok (to_http_body b)
