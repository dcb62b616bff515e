-- ===== src/Fetch/Headers/Methods.antt =====
-- runtime/src/globals/fetch/header.rs: making headers and the methods of `Headers`.
use spiderfire.Prelude.{
  Bool, true, false, not, ◌&&◌, ◌||◌, List, [], ◌∷◌, ◌++◌, Option, none, some, if◌then◌else◌, ltb,
  is_empty, length, any, all, Text, codes, same, join,
}
use spiderfire.Fetch.Headers.{
  HeaderMaps, Result, ok, err, invalid_name, invalid_value, readonly, not_a_value, ◌>>=◌, or_error,
  Header, multiple, single, display, HeadersKind, none_kind, is_immutable, is_no_cors,
  is_safelisted, range_name, set_cookie, split_all, header_of, validate_header, is_unsafe_byte,
  is_language_byte, is_form_type,
}

module _ (h : HeaderMaps) where
  open h use {
    Map, get_all, append, insert, remove, parse_name, to_lowercase, parse_value, entries, keys,
    mime,
  }

  pub record Headers : Type 0 where
    pub headers : Map
    pub kind : HeadersKind

  unfoldable pub get_header : Text → Map → Option Header
  get_header name m = header_of (split_all (get_all name m))

  abbrev pub joined_with : Option Header → Text → Text
  joined_with none value = value
  joined_with (some old) value = display old ++ (codes ", " ++ value)

  -- `validate_no_cors_safelisted_request_header`. Its branch for `range` is never reached, since
  -- that name is not in the list that is tested first.
  unfoldable pub check_content : Text → Text → Text → Bool
  unfolding same is_unsafe_byte is_language_byte
  check_content name value temp =
      if same name (codes "accept")
      then not (any is_unsafe_byte temp)
      else if same name (codes "accept-language") || same name (codes "content-language")
      then all is_language_byte temp
      else if same name (codes "content-type")
      then not (any is_unsafe_byte temp) && is_form_type (mime value)
      else false

  unfoldable pub validate_no_cors : Map → Text → Text → Bool
  unfolding get_header display
  validate_no_cors m name value =
      let temp = joined_with (get_header name m) value in
      if not (is_safelisted name)
      then false
      else if ltb 128 (length temp)
      then false
      else check_content name value temp

  unfoldable pub remove_privileged : HeadersKind → Map → Map
  remove_privileged kind m = if is_no_cors kind then remove range_name m else m

  abbrev pub passes_no_cors : HeadersKind → Map → Text → Text → Bool
  passes_no_cors kind m name value = if is_no_cors kind then validate_no_cors m name value else true

  -- `append_header`
  abbrev pub append_valid : HeadersKind → Text → Text → Map → Bool → Map
  append_valid kind name value m valid =
      if valid && passes_no_cors kind m name value
      then remove_privileged kind (append name value m)
      else m

  unfoldable pub append_header : HeadersKind → Text → Text → Map → Result Map
  unfolding remove_privileged
  append_header kind name value m = do
    valid ← validate_header name value kind
    ok (append_valid kind name value m valid)

  unfoldable pub append_entries : HeadersKind → List (Text × Text) → Map → Result Map
  append_entries kind [] m = ok m
  append_entries kind ((name, value) ∷ rest) m = do
    m' ← append_header kind name value m
    append_entries kind rest m'

  -- `Headers::from_array`
  abbrev pub parsed : Text × Text → Result (Text × Text)
  parsed (n, v) = do
    name ← or_error invalid_name (parse_name n)
    value ← or_error invalid_value (parse_value v)
    ok (name, value)

  unfoldable pub from_array : HeadersKind → List (Text × Text) → Map → Result Map
  from_array kind [] m = ok m
  from_array kind (e ∷ rest) m = do
    p ← parsed e
    m' ← append_header kind p.0 p.1 m
    from_array kind rest m'

  -- `append_to_headers`: the keys of a script's object, with their values.
  pub data ObjectValue : Type 0 where
    texts : List Text → ObjectValue
    text : Text → ObjectValue
    neither : ObjectValue

  abbrev pub text_of : ObjectValue → Result Text
  text_of (texts vs) = or_error invalid_value (parse_value (join (codes ", ") vs))
  text_of (text v) = or_error invalid_value (parse_value v)
  text_of neither = err not_a_value

  unfoldable pub append_to_headers : List (Text × ObjectValue) → Map → Result Map
  append_to_headers [] m = ok m
  append_to_headers ((key, v) ∷ rest) m = do
    name ← or_error invalid_name (parse_name (to_lowercase key))
    value ← text_of v
    append_to_headers rest (insert name value m)

  -- `HeadersInit`, whose entries and keys a script gave.
  pub data HeadersInit : Type 0 where
    existing : Headers → HeadersInit
    array : List (Text × Text) → HeadersInit
    object : List (Text × ObjectValue) → HeadersInit
    no_init : HeadersInit

  abbrev pub extend : List (Text × Text) → Map → Map
  extend [] m = m
  extend ((n, v) ∷ rest) m = extend rest (append n v m)

  abbrev pub with_kind : HeadersKind → Result Map → Result Headers
  with_kind kind r = do m ← r; ok (record { headers = m; kind = kind })

  -- `HeadersInit::into_headers`
  unfoldable pub into_headers : HeadersInit → Map → HeadersKind → Result Headers
  into_headers (existing other) m kind =
      ok (record { headers = extend (entries other.headers) m; kind = kind })
  into_headers (array vec) m kind = with_kind kind (from_array kind vec m)
  into_headers (object keys) m kind =
      with_kind kind (do o ← append_to_headers keys h.empty; append_entries kind (entries o) m)
  into_headers no_init m kind = ok (record { headers = m; kind = kind })

  -- `Headers::constructor`
  abbrev pub or_no_init : Option HeadersInit → HeadersInit
  or_no_init none = no_init
  or_no_init (some init) = init

  unfoldable pub constructor : Option HeadersInit → Result Headers
  unfolding into_headers
  constructor init = into_headers (or_no_init init) h.empty none_kind

  -- `Headers::append`
  unfoldable pub append_method : Text → Text → Headers → Result Headers
  append_method n v s = if is_immutable s.kind then err readonly else (do
    name ← or_error invalid_name (parse_name n)
    value ← or_error invalid_value (parse_value v)
    ok (record s { headers = append name value s.headers }))

  abbrev pub keeps_no_cors : HeadersKind → Text → Bool
  keeps_no_cors kind name =
      is_no_cors kind && (not (is_safelisted name) && not (same name range_name))

  -- `Headers::delete`
  abbrev pub delete_valid : Text → Headers → Bool → Headers
  delete_valid name s valid =
      if valid && not (keeps_no_cors s.kind name)
      then record s { headers = remove_privileged s.kind (remove name s.headers) }
      else s

  unfoldable pub delete : Text → Headers → Result Headers
  unfolding remove_privileged same
  delete n s = do
    name ← or_error invalid_name (parse_name n)
    valid ← validate_header name [] s.kind
    ok (delete_valid name s valid)

  unfoldable pub get : Text → Headers → Result (Option Header)
  unfolding get_header
  get n s = do name ← or_error invalid_name (parse_name n); ok (get_header name s.headers)

  abbrev pub cookie_texts : Option Header → List Text
  cookie_texts none = []
  cookie_texts (some (multiple vs)) = vs
  cookie_texts (some (single v)) = v ∷ []

  unfoldable pub get_set_cookie : Headers → List Text
  unfolding get_header
  get_set_cookie s = cookie_texts (get_header set_cookie s.headers)

  -- `Headers::has`
  unfoldable pub has : Text → Headers → Result Bool
  has n s = do
    name ← or_error invalid_name (parse_name n)
    ok (not (is_empty (get_all name s.headers)))

  -- `Headers::set`
  abbrev pub set_valid : Text → Text → Headers → Bool → Headers
  set_valid name value s valid =
      if valid && passes_no_cors s.kind s.headers name value
      then record s { headers = remove_privileged s.kind (insert name value s.headers) }
      else s

  unfoldable pub set : Text → Text → Headers → Result Headers
  unfolding remove_privileged
  set n v s = do
    name ← or_error invalid_name (parse_name n)
    value ← or_error invalid_value (parse_value v)
    valid ← validate_header name [] s.kind
    ok (set_valid name value s valid)
