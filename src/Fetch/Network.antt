-- ===== src/Fetch/Network.antt =====
-- runtime/src/globals/fetch/mod.rs: `http_network_fetch`.
use spiderfire.Fetch.Tests.{is_only_if_cached}
use spiderfire.Prelude.{
  ℕ, Bool, true, false, not, ◌&&◌, ◌||◌, List, [], ◌∷◌, ◌++◌, Option, none, some, if◌then◌else◌,
  ◌==◌, Text, codes,
}
use spiderfire.Fetch.Options.{
  RequestCache, default_cache, no_store, reload, no_cache, force_cache, only_if_cached,
}
use spiderfire.Fetch.Headers.{range_name}
use spiderfire.Fetch.Web.{
  Web, Method, get_method, head_method, post_method, put_method, connect_method, trace_method,
  other_method, FetchBody, body_len, is_stream, to_http_body, contains_key, append_missing,
}
use spiderfire.Fetch.Requests.{Request, Referrer, no_referrer_at_all, client, referrer_url}
use spiderfire.Fetch.Responses.{Response, network_error, from_hyper}

abbrev pub default_user_agent : Text → Text
default_user_agent version = codes "Spiderfire/" ++ version

abbrev pub is_default : RequestCache → Bool
is_default default_cache = true
is_default no_store = false
is_default reload = false
is_default no_cache = false
is_default force_cache = false
is_default only_if_cached = false

abbrev pub is_no_cache : RequestCache → Bool
is_no_cache default_cache = false
is_no_cache no_store = false
is_no_cache reload = false
is_no_cache no_cache = true
is_no_cache force_cache = false
is_no_cache only_if_cached = false

-- `no-store` or `reload`
abbrev pub goes_past : RequestCache → Bool
goes_past default_cache = false
goes_past no_store = true
goes_past reload = true
goes_past no_cache = false
goes_past force_cache = false
goes_past only_if_cached = false

-- POST or PUT
abbrev pub has_length : Method → Bool
has_length get_method = false
has_length head_method = false
has_length post_method = true
has_length put_method = true
has_length connect_method = false
has_length trace_method = false
has_length (other_method m) = false

abbrev pub length_of : Method → Option FetchBody → Option ℕ
length_of m none = if has_length m then some 0 else none
length_of m (some b) = body_len b

abbrev pub streams : Option FetchBody → Bool
streams none = false
streams (some b) = is_stream b

abbrev pub bytes_of : Option FetchBody → List ℕ
bytes_of none = []
bytes_of (some b) = to_http_body b

module _ (w : Web) (version : Text) where
  open w use {Url, host, port, maps, digits, Net, send, Incoming, url_text}
  open maps use {Map, append}

  abbrev pub add_length : Option ℕ → Map → Map
  add_length none m = m
  add_length (some n) m = append (codes "content-length") (digits n) m

  abbrev pub add_referrer : Referrer w → Map → Map
  add_referrer no_referrer_at_all m = m
  add_referrer client m = m
  add_referrer (referrer_url u) m = append (codes "referer") (url_text u) m

  unfoldable pub is_conditional : Map → Bool
  is_conditional m =
      contains_key maps (codes "if-modified-since") m
      || (contains_key maps (codes "if-none-match") m
          || (contains_key maps (codes "if-unmodified-since") m
              || (contains_key maps (codes "if-match") m
                  || contains_key maps (codes "if-range") m)))

  unfoldable pub cache_of : RequestCache → Map → RequestCache
  cache_of cache m = if is_default cache && is_conditional m then no_store else cache

  unfoldable pub add_cache : RequestCache → Map → Map
  add_cache cache m =
      let m1 =
        if is_no_cache cache
        then append_missing maps (codes "cache-control") (codes "max-age=0") m
        else m in
      if goes_past cache
      then append_missing maps (codes "cache-control") (codes "no-cache")
          (append_missing maps (codes "pragma") (codes "no-cache") m1)
      else m1

  abbrev pub with_port : Text → Option ℕ → Text
  with_port h none = h
  with_port h (some p) = h ++ (b':' ∷ digits p)

  -- A URL without a host makes the code panic: `none`.
  abbrev pub add_host : Option Text → Option ℕ → Map → Option Map
  add_host none p m = if contains_key maps (codes "host") m then some m else none
  add_host (some h) p m = some (append_missing maps (codes "host") (with_port h p) m)

  unfoldable pub network_headers : Request w → Option Map
  unfolding cache_of add_cache
  network_headers r =
      let m1 = add_referrer r.referrer (add_length (length_of r.method r.body) r.headers.headers) in
      let m2 = append_missing maps (codes "user-agent") (default_user_agent version) m1 in
      let m3 = add_cache (cache_of r.cache m2) m2 in
      let m4 =
        if contains_key maps range_name m3
        then append (codes "accept-encoding") (codes "identity") m3
        else m3 in
      add_host (host r.url) (port r.url) m4

  -- The answer of the client: the retry is with `is_new`, once.
  abbrev pub is_refused : Option ℕ → Bool → Bool
  is_refused none window = false
  is_refused (some status) window = (status == 407) && not window

  abbrev pub is_misdirected : Option ℕ → Bool
  is_misdirected none = false
  is_misdirected (some status) = status == 421

  abbrev pub received :
      Request w → Bool → Option (ℕ × (Option Text × (Map × Incoming))) → Response w
  received r ranged none = network_error w
  received r ranged (some (status, (reason, (m, body)))) =
      record (from_hyper w status reason m body r.url) { range_requested = ranged }

  abbrev pub send_with : Request w → Map → Net → Response w × Net
  send_with r m net =
      let answer = send r.method r.url m (bytes_of r.body) net in
      (received r (contains_key maps range_name m) answer.0, answer.1)

  abbrev pub refuse : Request w → Response w × Net → Response w × Net
  refuse r a = if is_refused a.0.status r.client_window then (network_error w, a.1) else a

  abbrev pub send_twice : Request w → Map → Net → Response w × Net
  send_twice r m net =
      let a = refuse r (send_with r m net) in
      if is_misdirected a.0.status && not (streams r.body) then refuse r (send_with r m a.1) else a

  -- `http_network_fetch` with `is_new` false, or `none` where the code panics.
  unfoldable pub http_network_fetch : Request w → Net → Option (Response w × Net)
  unfolding network_headers network_error from_hyper
  http_network_fetch r net = sent (network_headers r)
    where
      sent : Option Map → Option (Response w × Net)
      sent none = none
      sent (some m) =
          if is_only_if_cached r.cache
          then some (network_error w, net)
          else some (send_twice r m net)
