-- ===== src/Fetch/Web.antt =====
-- What a fetch uses of its libraries, and runtime/src/globals/fetch/body.rs.
use Prim.Native.String.{String}
use spiderfire.Prelude.{
  ℕ, ◌≤◌, ◌<◌, ◌≡◌, Bool, false, not, List, [], Option, none, some, if◌then◌else◌, length, is_empty,
  Text, codes,
}
use spiderfire.Fetch.Headers.{HeaderMaps, Result}

-- `http::Method`
pub data Method : Type 0 where
  get_method head_method post_method put_method connect_method trace_method : Method
  other_method : Text → Method

-- `FetchBodyInner`, `FetchBodyKind` and `FetchBody`, without the script's value that it was made of.
pub data FetchBodyInner : Type 0 where
  no_body : FetchBodyInner
  body_bytes : List ℕ → FetchBodyInner

pub data FetchBodyKind : Type 0 where
  string_kind : FetchBodyKind
  blob_kind : Text → FetchBodyKind
  search_params_kind : FetchBodyKind

pub record FetchBody : Type 0 where
  pub body : FetchBodyInner
  pub kind : Option FetchBodyKind

abbrev pub print_body_kind : FetchBodyKind → Text
print_body_kind string_kind = codes "text/plain;charset=UTF-8"
print_body_kind (blob_kind mime) = mime
print_body_kind search_params_kind = codes "application/x-www-form-urlencoded;charset=UTF-8"

-- `FetchBody::len`, `is_stream` and `to_http_body`; a body is `Body::Empty` or bytes.
abbrev pub inner_len : FetchBodyInner → Option ℕ
inner_len no_body = none
inner_len (body_bytes b) = some (length b)

abbrev pub body_len : FetchBody → Option ℕ
body_len b = inner_len b.body

abbrev pub inner_is_stream : FetchBodyInner → Bool
inner_is_stream no_body = false
inner_is_stream (body_bytes b) = false

abbrev pub is_stream : FetchBody → Bool
is_stream b = inner_is_stream b.body

abbrev pub inner_bytes : FetchBodyInner → List ℕ
inner_bytes no_body = []
inner_bytes (body_bytes b) = b

abbrev pub to_http_body : FetchBody → List ℕ
to_http_body b = inner_bytes b.body

-- The crates url, http, hyper and uri-url: a URL and its parts, a map of headers, and a client
-- that answers a request and changes the world, `None` being its error. `size_hint` is the upper
-- bound that `GetAll::into_iter` gives for the values of a name: their number if there is at most
-- one, and none otherwise. `from_utf8` is none for bytes that are not UTF-8.
pub record Web : Type 1 where
  pub maps : HeaderMaps
  pub Url : Type 0
  pub parse_url : Option Url → Text → Option Url
  pub scheme : Url → Text
  pub path : Url → Text
  pub host : Url → Option Text
  pub port : Url → Option ℕ
  pub username : Url → Text
  pub password : Url → Option Text
  pub fragment : Url → Option Text
  pub set_fragment : Option Text → Url → Url
  pub url_text : Url → Text
  pub digits : ℕ → Text
  pub from_utf8 : Text → Option String
  pub parse_method : Text → Option Method
  pub size_hint : List Text → Option ℕ
  pub size_hint-few : (vs : List Text) → length vs < 2 → size_hint vs ≡ some (length vs)
  pub size_hint-many : (vs : List Text) → 2 ≤ length vs → size_hint vs ≡ none
  pub Incoming : Type 0
  pub read_incoming : Incoming → Result (List ℕ)
  pub Net : Type 0
  pub send :
      Method
      → Url
      → HeaderMaps.Map maps
      → List ℕ
      → Net
      → Option (ℕ × (Option Text × (HeaderMaps.Map maps × Incoming))) × Net
  pub canonical_reason : ℕ → Option Text

module _ (h : HeaderMaps) where
  open h use {Map, get_all, append, insert}

  -- `HeaderMap::contains_key`
  abbrev pub contains_key : Text → Map → Bool
  contains_key name m = not (is_empty (get_all name m))

  abbrev pub append_missing : Text → Text → Map → Map
  append_missing name value m = if contains_key name m then m else append name value m

  -- `FetchBody::add_content_type_header`
  abbrev pub add_content_type : Option FetchBodyKind → Map → Map
  add_content_type none m = m
  add_content_type (some k) m = append_missing (codes "content-type") (print_body_kind k) m
