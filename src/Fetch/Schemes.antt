-- ===== src/Fetch/Schemes.antt =====
-- runtime/src/globals/fetch/scheme.rs: the fetches of the schemes about, blob, data and file. A
-- panic is none.
pub mod Ranges
use spiderfire.Prelude.{
  ℕ, suc, ◌+◌, ◌-◌, ◌%◌, ◌^◌, ◌≡◌, Bool, true, false, not, ◌&&◌, ◌||◌, List, [], ◌∷◌, ◌++◌, Option,
  none, some, if◌then◌else◌, ltb, length, take, drop, Text, codes, same,
}
use spiderfire.Fetch.Headers.{immutable_kind}
use spiderfire.Fetch.Headers.Methods.{Headers}
use spiderfire.Fetch.Web.{
  Web, Method, get_method, head_method, post_method, put_method, connect_method, trace_method,
  other_method,
}
use spiderfire.Fetch.Requests.{Request}
use spiderfire.Fetch.Responses.{Response, network_error, new_from_bytes}
use spiderfire.Blob.{Blob, or_empty}

-- `std::ops::Bound`
pub data Bound : Type 0 where
  included excluded : ℕ → Bound
  unbounded : Bound

-- What the header `range` of a request says, by the crate headers: an error, nothing, or ranges. Of
-- these the first that the crate takes for a size counts.
pub data RangeHeader : Type 0 where
  bad_range no_range : RangeHeader
  ranges : (ℕ → Option (Bound × Bound)) → RangeHeader

-- The blobs that have a URL, the crate data-url, files, and `HeaderValue::from_str`.
pub record Stores (w : Web) : Type 0 where
  pub range : w.maps.Map → RangeHeader
  pub find_blob : w.Url → Option Blob
  pub data_url : w.Url → Option (List ℕ × Text)
  pub read_file : w.Url → w.Net → Option (List ℕ)
  pub header_value : Text → Option Text

abbrev pub is_get : Method → Bool
is_get get_method = true
is_get head_method = false
is_get post_method = false
is_get put_method = false
is_get connect_method = false
is_get trace_method = false
is_get (other_method m) = false

-- The bounds of `Bytes::slice`: where it starts, and where it stops. `checked_add` panics, none.
abbrev pub plus_one : ℕ → Option ℕ
plus_one n = if ltb (n + 1) (2 ^ 64) then some (n + 1) else none

abbrev pub start_of : Bound → Option ℕ
start_of (included s) = some s
start_of (excluded s) = plus_one s
start_of unbounded = some 0

abbrev pub stop_of : ℕ → Bound → Option ℕ
stop_of len (included e) = plus_one e
stop_of len (excluded e) = some e
stop_of len unbounded = some len

-- `Bytes::slice` from an index up to another, which panics out of bounds.
unfoldable pub slice_bytes : ℕ → ℕ → List ℕ → Option (List ℕ)
slice_bytes from to bytes =
    if ltb to from || ltb (length bytes) to then none else some (take (to - from) (drop from bytes))

abbrev pub slice_between : List ℕ → Option ℕ → Option ℕ → Option (List ℕ)
slice_between bytes none to = none
slice_between bytes (some from) none = none
slice_between bytes (some from) (some to) = slice_bytes from to bytes

abbrev pub slice : List ℕ → Bound → Bound → Option (List ℕ)
slice bytes start end = slice_between bytes (start_of start) (stop_of (length bytes) end)

-- The first and the last index that the header tells; other bounds are `unreachable!()`. `len - 1`
-- is of `usize`.
abbrev pub named_range : ℕ → Bound → Bound → Option (ℕ × ℕ)
named_range len (included s) (included e) = some (s, e)
named_range len (included s) unbounded = some (s, (len + (2 ^ 64 - 1)) % 2 ^ 64)
named_range len (included s) (excluded e) = none
named_range len (excluded s) end = none
named_range len unbounded end = none

-- `get_ranged_bytes`
pub record Ranged : Type 0 where
  pub bytes : List ℕ
  pub headers : List (Text × Text)
  pub status : ℕ
  pub range_requested : Bool

pub data Answer : Type 0 where
  network_failure : Answer
  ranged : Ranged → Answer

module _ (w : Web) (s : Stores w) where
  open w use {Url, Net, maps, digits, path}
  open maps use {Map, empty, append}

  abbrev pub partial : List ℕ → ℕ → ℕ × ℕ → Answer
  partial part len (start, last) = ranged (record {
    bytes = part;
    headers =
        (codes "content-range", digits start ++ (b'-' ∷ digits last ++ (b'/' ∷ digits len))) ∷ [];
    status = 206;
    range_requested = true;
  })

  abbrev pub cut_to : ℕ → Option (ℕ × ℕ) → Option (List ℕ) → Option Answer
  cut_to len range none = none
  cut_to len none (some part) = none
  cut_to len (some range) (some part) = some (partial part len range)

  abbrev pub cut : List ℕ → Option (Bound × Bound) → Option Answer
  cut bytes none = some network_failure
  cut bytes (some (start, end)) =
      cut_to (length bytes) (named_range (length bytes) start end) (slice bytes start end)

  abbrev pub ranged_by : List ℕ → RangeHeader → Option Answer
  ranged_by bytes bad_range = some network_failure
  ranged_by bytes no_range =
      some (ranged (record { bytes = bytes; headers = []; status = 200; range_requested = false }))
  ranged_by bytes (ranges satisfiable) = cut bytes (satisfiable (length bytes))

  unfoldable pub get_ranged_bytes : Map → List ℕ → Option Answer
  unfolding slice_bytes
  get_ranged_bytes m bytes = ranged_by bytes (s.range m)

  abbrev pub from_pairs : List (Text × Text) → Map → Map
  from_pairs [] m = m
  from_pairs ((n, v) ∷ rest) m = from_pairs rest (append n v m)

  abbrev pub with_pairs : List (Text × Text) → Response w → Response w
  with_pairs ps r = record r {
    headers = record { headers = from_pairs ps empty; kind = immutable_kind };
  }

  -- The response to the bytes of a blob or a file.
  abbrev pub respond_with : List (Text × Text) → Url → Option Answer → Option (Response w)
  respond_with ps url none = none
  respond_with ps url (some network_failure) = some (network_error w)
  respond_with ps url (some (ranged a)) =
      some
        (record (with_pairs
          (ps ++ (a.headers ++ (codes "content-length", digits (length a.bytes)) ∷ []))
          (new_from_bytes w a.bytes url)) {
            status = some a.status;
            range_requested = a.range_requested;
          })

  unfoldable pub about_blank_fetch : Url → Response w
  unfolding new_from_bytes
  about_blank_fetch url =
      with_pairs ((codes "content-type", codes "text/html;charset=UTF-8") ∷ [])
        (new_from_bytes w [] url)

  abbrev pub blob_answer : Request w → Url → Blob → Option Text → Option (Response w)
  blob_answer q url blob none = some (network_error w)
  blob_answer q url blob (some kind) =
      respond_with ((codes "content-type", kind) ∷ []) url
        (get_ranged_bytes q.headers.headers blob.bytes)

  abbrev pub of_blob : Request w → Url → Option Blob → Option (Response w)
  of_blob q url none = some (network_error w)
  of_blob q url (some blob) = blob_answer q url blob (s.header_value (or_empty blob.kind))

  unfoldable pub blob_fetch : Request w → Url → Option (Response w)
  unfolding get_ranged_bytes new_from_bytes network_error
  blob_fetch q url =
      if is_get q.method then of_blob q url (s.find_blob url) else some (network_error w)

  -- A value that the http crate refuses makes `data_fetch` panic.
  abbrev pub of_data : Url → List ℕ → Option Text → Option (Response w)
  of_data url body none = none
  of_data url body (some mime) =
      some (with_pairs ((codes "content-type", mime) ∷ []) (new_from_bytes w body url))

  abbrev pub data_answer : Url → Option (List ℕ × Text) → Option (Response w)
  data_answer url none = some (network_error w)
  data_answer url (some (body, mime)) = of_data url body (s.header_value mime)

  unfoldable pub data_fetch : Url → Option (Response w)
  unfolding new_from_bytes network_error
  data_fetch url = data_answer url (s.data_url url)

  abbrev pub of_file : Request w → Url → Option (List ℕ) → Option (Response w)
  of_file q url none = some (network_error w)
  of_file q url (some bytes) = respond_with [] url (get_ranged_bytes q.headers.headers bytes)

  unfoldable pub file_fetch : Request w → Url → Net → Option (Response w)
  unfolding get_ranged_bytes new_from_bytes network_error
  file_fetch q url net =
      if is_get q.method then of_file q url (s.read_file url net) else some (network_error w)

  abbrev pub beside : Net → Option (Response w) → Option (Response w × Net)
  beside net none = none
  beside net (some r) = some (r, net)

  unfoldable pub scheme_fetch : Text → Request w → Net → Option (Response w × Net)
  unfolding about_blank_fetch blob_fetch data_fetch file_fetch network_error same
  scheme_fetch scheme q net =
      if same scheme (codes "about") && same (path q.url) (codes "blank")
      then some (about_blank_fetch q.url, net)
      else if same scheme (codes "blob")
      then beside net (blob_fetch q q.url)
      else if same scheme (codes "data")
      then beside net (data_fetch q.url)
      else if same scheme (codes "file")
      then beside net (file_fetch q q.url net)
      else some (network_error w, net)
