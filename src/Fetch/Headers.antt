-- ===== src/Fetch/Headers.antt =====
-- runtime/src/globals/fetch/header.rs: `Headers`. A name is known by its lower-case characters, a
-- value by its characters.
pub mod Methods
pub mod Guards
pub mod Splitting
pub mod Iteration
use spiderfire.Prelude.{
  ℕ, suc, ◌+◌, ◌≡◌, Bool, true, false, not, ◌&&◌, ◌||◌, List, [], ◌∷◌, ◌++◌, map, Option, none,
  some, if◌then◌else◌, ltb, leb, ◌==◌, is_empty, length, any, all, Text, codes, same, is_member,
  starts_with, trim, join, is_whitespace, lowercase,
}

-- What `mime::Mime` says of a type: one of the three essences that the code names, or another.
pub data Essence : Type 0 where
  form_urlencoded form_data plain other : Essence

abbrev pub values_of : Text → List (Text × Text) → List Text
values_of name [] = []
values_of name ((n, v) ∷ rest) =
    let later = values_of name rest in if same n name then v ∷ later else later

-- The crates http and mime: `HeaderMap` with the entries in the order of its iteration,
-- `HeaderName::from_bytes`, `HeaderValue::from_bytes` and `Mime::from_str`. `remove` is
-- `entry(…).remove_entry_mult()`, `insert` replaces every value of the name.
pub record HeaderMaps : Type 1 where
  pub Map : Type 0
  pub empty : Map
  pub entries : Map → List (Text × Text)
  pub get_all : Text → Map → List Text
  pub keys : Map → List Text
  pub append : Text → Text → Map → Map
  pub insert : Text → Text → Map → Map
  pub remove : Text → Map → Map
  pub to_lowercase : Text → Text
  pub parse_name : Text → Option Text
  pub parse_value : Text → Option Text
  pub mime : Text → Option Essence
  pub get_all-empty : (n : Text) → get_all n empty ≡ []
  pub get_all-entries : (n : Text) (m : Map) → get_all n m ≡ values_of n (entries m)
  pub get_all-append :
      (n v j : Text) (m : Map)
      → get_all j (append n v m) ≡ (if same n j then get_all j m ++ v ∷ [] else get_all j m)
  pub get_all-insert :
      (n v j : Text) (m : Map)
      → get_all j (insert n v m) ≡ (if same n j then v ∷ [] else get_all j m)
  pub get_all-remove :
      (n j : Text) (m : Map) → get_all j (remove n m) ≡ (if same n j then [] else get_all j m)
  pub get_all-keys : (n : Text) (m : Map) → is_member n (keys m) ≡ not (is_empty (get_all n m))

-- `ion::Error`, by its message.
pub data Error : Type 0 where
  invalid_name invalid_value immutable readonly not_a_value : Error
  url_credentials invalid_url non_null_window navigate_mode invalid_method forbidden_method : Error
  cache_mode no_cors_method null_body_status body_used invalid_utf8 unreadable : Error

pub data Result {κ} (T : Type κ) : Type κ where
  err : Error → Result T
  ok : T → Result T

abbrev pub or_error {κ} : {T : Type κ} → Error → Option T → Result T
or_error e none = err e
or_error e (some x) = ok x

-- The operator `?`
infixl 4 ◌>>=◌
abbrev pub ◌>>=◌ {κ μ} : {T : Type κ} {U : Type μ} → Result T → (T → Result U) → Result U
err e >>= next = err e
ok x >>= next = next x

pub data Header : Type 0 where
  multiple : List Text → Header
  single : Text → Header

-- `Display`
abbrev pub with_commas : List Text → Text
with_commas [] = []
with_commas (s ∷ rest) = s ++ (codes ", " ++ with_commas rest)

unfoldable pub display : Header → Text
display (multiple values) = with_commas values
display (single value) = value

pub data HeadersKind : Type 0 where
  immutable_kind request_kind request_no_cors response_kind none_kind : HeadersKind

abbrev pub is_immutable : HeadersKind → Bool
is_immutable immutable_kind = true
is_immutable request_kind = false
is_immutable request_no_cors = false
is_immutable response_kind = false
is_immutable none_kind = false

abbrev pub is_no_cors : HeadersKind → Bool
is_no_cors immutable_kind = false
is_no_cors request_kind = false
is_no_cors request_no_cors = true
is_no_cors response_kind = false
is_no_cors none_kind = false

-- The constants of names.
abbrev pub forbidden_request_headers : List Text
forbidden_request_headers =
    codes "accept-charset"
    ∷ codes "accept-encoding"
    ∷ codes "access-control-allow-headers"
    ∷ codes "access-control-allow-methods"
    ∷ codes "connection"
    ∷ codes "content-length"
    ∷ codes "cookie"
    ∷ codes "cookie2"
    ∷ codes "date"
    ∷ codes "dnt"
    ∷ codes "expect"
    ∷ codes "host"
    ∷ codes "keep-alive"
    ∷ codes "origin"
    ∷ codes "referer"
    ∷ codes "set-cookie"
    ∷ codes "te"
    ∷ codes "trailer"
    ∷ codes "transfer-encoding"
    ∷ codes "upgrade"
    ∷ codes "via"
    ∷ []

abbrev pub forbidden_request_header_methods : List Text
forbidden_request_header_methods =
    codes "x-http-method" ∷ codes "x-http-method-override" ∷ codes "x-method-override" ∷ []

abbrev pub set_cookie : Text
set_cookie = codes "set-cookie"

abbrev pub range_name : Text
range_name = codes "range"

abbrev pub forbidden_response_headers : List Text
forbidden_response_headers = set_cookie ∷ codes "set-cookie2" ∷ []

abbrev pub no_cors_safelisted : List Text
no_cors_safelisted =
    codes "accept" ∷ codes "accept-language" ∷ codes "content-language" ∷ codes "content-type" ∷ []

-- `split_value`: the state of its loop, with the strings that are finished and the last one.
pub record Split : Type 0 where
  pub quoted : Bool
  pub escaped : Bool
  pub finished : List Text
  pub current : Text

unfoldable pub split_step : Split → ℕ → Split
unfolding trim
split_step s c =
    if (c == b'"') && not s.escaped
    then record s { quoted = not s.quoted; escaped = false }
    else if (c == b',') && not s.quoted
    then record s { escaped = false; finished = s.finished ++ trim s.current ∷ []; current = [] }
    else record s { escaped = c == b'\\'; current = s.current ++ c ∷ [] }

unfoldable pub split_loop : Split → Text → Split
unfolding split_step
split_loop s [] = s
split_loop s (c ∷ cs) = split_loop (split_step s c) cs

abbrev pub pieces : Split → List Text
pieces s = s.finished ++ s.current ∷ []

unfoldable pub split_value : Text → List Text
unfolding split_loop
split_value v =
    pieces (split_loop (record { quoted = false; escaped = false; finished = []; current = [] }) v)

abbrev pub split_all : List Text → List Text
split_all [] = []
split_all (v ∷ vs) = split_value v ++ split_all vs

abbrev pub header_of : List Text → Option Header
header_of [] = none
header_of (v ∷ []) = some (single v)
header_of (v ∷ w ∷ rest) = some (multiple (v ∷ w ∷ rest))

unfoldable pub is_bad_method : Text → Bool
is_bad_method v = same v (codes "CONNECT") || (same v (codes "TRACE") || same v (codes "TRACK"))

-- The names by the tests that are made of them.
unfoldable pub is_forbidden_request : Text → Bool
unfolding same
is_forbidden_request name = is_member name forbidden_request_headers

unfoldable pub has_forbidden_prefix : Text → Bool
unfolding starts_with
has_forbidden_prefix name = starts_with (codes "proxy-") name || starts_with (codes "sec-") name

unfoldable pub is_method_override : Text → Bool
unfolding same
is_method_override name = is_member name forbidden_request_header_methods

unfoldable pub is_forbidden_response : Text → Bool
unfolding same
is_forbidden_response name = is_member name forbidden_response_headers

unfoldable pub is_safelisted : Text → Bool
unfolding same
is_safelisted name = is_member name no_cors_safelisted

-- `validate_header`
unfoldable pub validate_header : Text → Text → HeadersKind → Result Bool
validate_header name value kind =
    if is_immutable kind
    then err immutable
    else if is_forbidden_request name
    then ok false
    else if has_forbidden_prefix name
    then ok false
    else if is_method_override name && any is_bad_method (split_value value)
    then ok false
    else if is_forbidden_response name
    then ok false
    else ok true

unfoldable pub is_unsafe_byte : ℕ → Bool
is_unsafe_byte b =
    (ltb b b' ' && not (b == 9))
    || any (λ c. b == c)
        (b'"' ∷ b'(' ∷ b')' ∷ b':' ∷ b'<' ∷ b'>' ∷ b'?' ∷ b'@' ∷ b'[' ∷ b']' ∷ b'{' ∷ b'}' ∷ 0x7f
          ∷ [])

unfoldable pub is_language_byte : ℕ → Bool
is_language_byte b =
    (leb b'0' b && leb b b'9')
    || (leb b'A' b && leb b b'Z')
    || (leb b'a' b && leb b b'z')
    || any (λ c. b == c) (b' ' ∷ b'*' ∷ b',' ∷ b'-' ∷ b'.' ∷ b';' ∷ b'=' ∷ [])

abbrev pub is_form_type : Option Essence → Bool
is_form_type none = false
is_form_type (some form_urlencoded) = true
is_form_type (some form_data) = true
is_form_type (some plain) = true
is_form_type (some other) = false
