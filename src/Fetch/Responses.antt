-- ===== src/Fetch/Responses.antt =====
-- runtime/src/globals/fetch/response/mod.rs and body.rs: `Response`.
use spiderfire.Fetch.Tests.{is_some, unwrap_or}
use spiderfire.Prelude.{
  ℕ, Bool, false, not, ◌&&◌, ◌||◌, List, [], Option, none, some, if◌then◌else◌, ◌==◌, leb, ltb,
  Text, codes,
}
use spiderfire.Fetch.Options.{ResponseKind, basic, default_kind, error_kind}
use spiderfire.Fetch.Headers.{
  Result, ok, err, ◌>>=◌, null_body_status, body_used, response_kind, immutable_kind,
}
use spiderfire.Fetch.Headers.Methods.{Headers, HeadersInit, into_headers}
use spiderfire.Fetch.Web.{Web, FetchBody, to_http_body, add_content_type}

module _ (w : Web) where
  open w use {Url, Incoming, read_incoming, maps, canonical_reason, url_text}
  open maps use {Map, empty}

  -- `ResponseBody` and `Body`
  pub data ResponseBody : Type 0 where
    fetch_body : FetchBody → ResponseBody
    bytes_body : List ℕ → ResponseBody
    incoming_body : Incoming → ResponseBody

  pub record Response : Type 0 where
    pub headers : Headers maps
    pub body : Option ResponseBody
    pub kind : ResponseKind
    pub url : Option Url
    pub redirected : Bool
    pub status : Option ℕ
    pub status_text : Option Text
    pub range_requested : Bool

  -- The headers that no object stands for yet.
  abbrev pub unset_headers : Headers maps
  unset_headers = record { headers = empty; kind = immutable_kind }

  unfoldable pub network_error : Response
  network_error = record {
    headers = unset_headers;
    body = none;
    kind = error_kind;
    url = none;
    redirected = false;
    status = none;
    status_text = none;
    range_requested = false;
  }

  abbrev pub or_reason : Option Text → ℕ → Option Text
  or_reason none status = canonical_reason status
  or_reason (some t) status = some t

  -- `from_hyper`, with the headers that `http_network_fetch` then sets.
  unfoldable pub from_hyper : ℕ → Option Text → Map → Incoming → Url → Response
  from_hyper status reason m body url = record {
    headers = record { headers = m; kind = immutable_kind };
    body = some (incoming_body body);
    kind = default_kind;
    url = some url;
    redirected = false;
    status = some status;
    status_text = or_reason reason status;
    range_requested = false;
  }

  unfoldable pub new_from_bytes : List ℕ → Url → Response
  new_from_bytes bytes url = record {
    headers = unset_headers;
    body = some (bytes_body bytes);
    kind = basic;
    url = some url;
    redirected = false;
    status = some 200;
    status_text = some (codes "OK");
    range_requested = false;
  }

  pub record ResponseInit : Type 0 where
    pub headers : HeadersInit maps
    pub status : ℕ
    pub status_text : Option Text

  abbrev pub is_null_body_status : ℕ → Bool
  is_null_body_status s = (s == 204) || (s == 205) || (s == 304)

  unfoldable pub bare : ResponseInit → Headers maps → Response
  bare i hs = record {
    headers = hs;
    body = some (bytes_body []);
    kind = default_kind;
    url = none;
    redirected = false;
    status = some i.status;
    status_text = i.status_text;
    range_requested = false;
  }

  abbrev pub set_body : Option FetchBody → ResponseInit → Headers maps → Result Response
  set_body none i hs = ok (bare i hs)
  set_body (some b) i hs =
      if is_null_body_status i.status
      then err null_body_status
      else ok (record (bare i (record hs { headers = add_content_type maps b.kind hs.headers })) {
        body = some (fetch_body b);
      })

  -- `Response::constructor`; `ResponseInit::default` is status 200 and no headers.
  unfoldable pub constructor : Option FetchBody → ResponseInit → Result Response
  unfolding into_headers bare
  constructor body i = do hs ← into_headers maps i.headers empty response_kind; set_body body i hs

  unfoldable pub get_url : Response → Text
  get_url r = print_url r.url
    where
      print_url : Option Url → Text
      print_url none = []
      print_url (some u) = url_text u

  unfoldable pub get_status : Response → ℕ
  get_status r = unwrap_or r.status 0

  unfoldable pub get_ok : Response → Bool
  get_ok r = is_ok r.status
    where
      is_ok : Option ℕ → Bool
      is_ok none = false
      is_ok (some s) = leb 200 s && ltb s 300

  unfoldable pub get_status_text : Response → Text
  get_status_text r = unwrap_or r.status_text []

  unfoldable pub get_body_used : Response → Bool
  get_body_used r = not (is_some r.body)

  -- `ResponseBody::read_to_bytes`
  abbrev pub read_body : Option ResponseBody → Result (List ℕ)
  read_body none = err body_used
  read_body (some (fetch_body b)) = ok (to_http_body b)
  read_body (some (bytes_body b)) = ok b
  read_body (some (incoming_body b)) = read_incoming b

  unfoldable pub read_to_bytes : Response → Result (List ℕ) × Response
  read_to_bytes r = (read_body r.body, record r { body = none })
