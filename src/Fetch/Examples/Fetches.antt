-- ===== src/Fetch/Examples/Fetches.antt =====
-- A client that redirects its first request, and the library's properties on small inputs.
use spiderfire.Fetch.Tainting.{cors_filter}
use spiderfire.Fetch.Redirecting.{redirect, redirected_request, Outcome, done, panics, out_of_fuel}
use spiderfire.Fetch.Tests.{is_own_scheme, is_http, is_bad_port, is_error}
use spiderfire.Prelude.{
  ℕ, suc, ◌≡◌, refl, inr, true, false, List, [], ◌∷◌, ◌++◌, Option, none, some, if◌then◌else◌, ◌==◌,
  arith, ◌≤◌, ◌<◌, length, Text, codes, same, lower,
}
use spiderfire.Fetch.Options.{
  follow, no_policy, include, omit, default_cache, cors, no_cors, manual, basic_taint,
}
use spiderfire.Fetch.Options.Texts.{Named, parse-print_iff}
use spiderfire.Fetch.Headers.{
  ok, request_kind, set_cookie, split_value, single, is_forbidden_request, validate_header,
  has_forbidden_prefix, is_method_override, is_forbidden_response,
}
use spiderfire.Fetch.Headers.Methods.{
  Headers, array, into_headers, from_array, append_header, get_header, set,
}
use spiderfire.Fetch.Headers.Splitting.{trim_but_last, split_value-join}
use spiderfire.Fetch.Headers.Iteration.{
  iterator, collect, items, cookie_items, collect-iterator_stops,
}
use spiderfire.Fetch.Headers.Guards.{Guarded}
use spiderfire.Fetch.Headers.Guards.Making.{into_headers-Guarded, empty-Guarded}
use spiderfire.Fetch.Headers.Guards.Kept.{apply-Guarded, apply, set_header}
use spiderfire.Fetch.Web.{Web, get_method, post_method, Method}
use spiderfire.Fetch.Requests.{
  finish, Request, client, RequestInit, of_text, constructor, apply_init, check_request,
}
use spiderfire.Fetch.Requests.Checks.{Checked, constructor-Checked}
use spiderfire.Fetch.Responses.{Response, network_error}
use spiderfire.Fetch.Main.{main_step, is_blocked, main_fetch, Fetched}
use spiderfire.Fetch.Main.Outcomes.{Ends}
use spiderfire.Fetch.Main.Redirects.{Followed, redirect-Followed}
use spiderfire.Fetch.Main.Ending.{More, main_fetch-Ends}
use spiderfire.Fetch.Tainting.Filtering.{is_hidden, cors_filter-get_all}
use spiderfire.Fetch.Main.Refusals.{main_fetch-Refused, no_cors_redirect}
use spiderfire.Fetch.Api.{fetch}
use spiderfire.Fetch.Api.Settled.{Settled, fetch-Settled}
use spiderfire.Fetch.Examples.Maps.{Entries, pairs, distinct_keys, remove_name}

parse-print_iff_example : Named "same-origin"
parse-print_iff_example = parse-print_iff "same-origin"

split_value-join_example :
    split_value (codes "a , b") ≡ trim_but_last (codes "a " ∷ codes " b" ∷ [])
split_value-join_example = split_value-join (codes "a ") (codes " b" ∷ []) (refl, (refl, tt))

last_part : trim_but_last (codes "a " ∷ codes " b" ∷ []) ≡ codes "a" ∷ codes " b" ∷ []
unfolding trim_but_last
last_part = refl

-- A response with a header after its cookie, which the iterator does not give.
abbrev with_cookie : Entries
with_cookie = (codes "vary", codes "v") ∷ (set_cookie, codes "c") ∷ (codes "accept", codes "x") ∷ []

collect-iterator_stops_example :
    collect pairs
      (length (iterator pairs with_cookie).keys)
      with_cookie
      (iterator pairs with_cookie)
    ≡ items pairs ((codes "accept", single (codes "x")) ∷ []) ++ cookie_items pairs (codes "c" ∷ [])
unfolding iterator distinct_keys same lower get_header split_value
collect-iterator_stops_example =
    collect-iterator_stops pairs with_cookie ((codes "accept", single (codes "x")) ∷ [])
      (codes "vary" ∷ []) refl (record { other_name = refl; value = refl }, tt)

abbrev pub site : Text
site = codes "https"

abbrev pub one_value : List Text → Option ℕ
one_value [] = some 0
one_value (v ∷ []) = some 1
one_value (v ∷ w ∷ vs) = none

pub one_value-few : (vs : List Text) → length vs < 2 → one_value vs ≡ some (length vs)
one_value-few [] h = refl
one_value-few (v ∷ []) h = refl
one_value-few (v ∷ u ∷ vs) h = absurd (omega (arith, h))

pub one_value-many : (vs : List Text) → 2 ≤ length vs → one_value vs ≡ none
one_value-many [] h = absurd (omega (arith, h))
one_value-many (v ∷ []) h = absurd (omega (arith, h))
one_value-many (v ∷ u ∷ vs) h = refl

abbrev pub if_named : Text → Option Method
if_named [] = none
if_named (c ∷ cs) = some get_method

-- A URL is its path. The first request is redirected to the path "b".
abbrev pub web : Web
web = record {
  maps = pairs;
  Url = Text;
  parse_url = λ base t. some t;
  scheme = λ u. site;
  path = λ u. u;
  host = λ u. some (codes "h");
  port = λ u. none;
  username = λ u. [];
  password = λ u. none;
  fragment = λ u. none;
  set_fragment = λ f u. u;
  url_text = λ u. u;
  digits = λ n. n ∷ [];
  from_utf8 = λ v. some "b";
  parse_method = if_named;
  size_hint = one_value;
  size_hint-few = one_value-few;
  size_hint-many = one_value-many;
  Incoming = List ℕ;
  read_incoming = λ b. ok b;
  Net = ℕ;
  send = λ m u hs b n. (
    some (
        if n == 0
        then (302, (none, ((codes "location", codes "b") ∷ (set_cookie, codes "c") ∷ [], [])))
        else (200, (none, ((set_cookie, codes "c") ∷ [], b' ' ∷ [])))),
    suc n,
  );
  canonical_reason = λ s. none;
}

abbrev fetch_nothing : Text → Request web → ℕ → Option (Response web × ℕ)
fetch_nothing s q n = some (network_error web, n)

abbrev pub version : Text
version = codes "0"

abbrev plain_init : RequestInit web
plain_init = record {
  method = some (codes "get");
  headers = some (array ((codes "x", codes "v") ∷ []));
  body = none;
  referrer = none;
  referrer_policy = none;
  mode = none;
  credentials = some include;
  cache = none;
  redirect = none;
  integrity = none;
  keepalive = none;
  signal = none;
  window = none;
}

abbrev pub start : Request web
start = record {
  headers = record { headers = (codes "accept", codes "x") ∷ []; kind = request_kind };
  body = none;
  method = post_method;
  url = codes "a";
  locations = codes "a" ∷ [];
  referrer = client;
  referrer_policy = no_policy;
  mode = cors;
  credentials = omit;
  cache = default_cache;
  redirect = follow;
  integrity = [];
  unsafe_request = false;
  keepalive = false;
  client_window = true;
  signal = 0;
}

main_fetch-Ends_example :
    Ends (More web version 20 start) (main_fetch web version fetch_nothing 21 0 start 0)
main_fetch-Ends_example =
    main_fetch-Ends web version fetch_nothing 21 0 start 0 (omega arith) (omega arith)

abbrev refused_at_once : Request web
refused_at_once = record start { mode = no_cors; redirect = manual }

main_fetch-Refused_example :
    (f : Fetched web version) × (main_fetch web version fetch_nothing 1 0 refused_at_once 0
      ≡ done f)
    × ((is_error f.response.kind ≡ true) × (f.net ≡ 0))
unfolding same
main_fetch-Refused_example =
    main_fetch-Refused web version fetch_nothing 0 0 refused_at_once 0
      (no_cors_redirect refl refl (inr refl))

abbrev allows_one : Entries
allows_one =
    (codes "access-control-allow-headers", codes "x")
    ∷ (codes "x", codes "1")
    ∷ (codes "y", codes "2")
    ∷ []

cors_filter-get_all_example : pairs.get_all (codes "x") (cors_filter web include allows_one) ≡ (
    if is_hidden web include allows_one (codes "x")
    then []
    else pairs.get_all (codes "x") allows_one)
cors_filter-get_all_example = cors_filter-get_all web include allows_one (codes "x")

abbrev answer : Response web
answer = record (network_error web) {
  headers = record { headers = (codes "location", codes "b") ∷ []; kind = request_kind };
  status = some 302;
}

redirect-Followed_example :
    Ends (Followed web version basic_taint 0 start answer) (redirect web basic_taint 0 start answer)
redirect-Followed_example = redirect-Followed web version basic_taint 0 start answer

abbrev reached : Outcome (Fetched web version) → Option (Text × (ℕ × Option ℕ))
reached (done f) = some (f.request.url, (f.net, f.response.status))
reached panics = none
reached out_of_fuel = none

followed :
    reached (main_fetch web version fetch_nothing 21 0 start 0) ≡ some (codes "b", (2, some 200))
unfolding main_fetch main_step is_own_scheme is_http is_blocked is_bad_port redirected_request
followed = refl

-- A guard that lets one of two entries in.
abbrev guarded : Headers pairs
guarded = record { headers = (codes "accept", codes "x") ∷ []; kind = request_kind }

into_headers-Guarded_example :
    (guarded.kind ≡ request_kind) × Guarded pairs request_kind guarded.headers
unfolding into_headers from_array append_header validate_header is_forbidden_request lower
    has_forbidden_prefix is_method_override is_forbidden_response
into_headers-Guarded_example =
    into_headers-Guarded pairs
      (array ((codes "Host", codes "x") ∷ (codes "Accept", codes "x") ∷ [])) [] request_kind guarded
      refl (empty-Guarded pairs request_kind) refl

abbrev changed : Headers pairs
changed = record {
  headers = (codes "accept", codes "x") ∷ (codes "vary", codes "y") ∷ [];
  kind = request_kind;
}

apply-Guarded_example : (changed.kind ≡ guarded.kind) × Guarded pairs guarded.kind changed.headers
unfolding apply set validate_header is_forbidden_request lower has_forbidden_prefix
    is_method_override is_forbidden_response remove_name
apply-Guarded_example =
    apply-Guarded pairs (set_header (codes "vary") (codes "y")) guarded changed
      into_headers-Guarded_example.1 refl

abbrev made : Request web
made = record {
  headers = record { headers = (codes "x", codes "v") ∷ []; kind = request_kind };
  body = none;
  method = get_method;
  url = codes "a";
  locations = codes "a" ∷ [];
  referrer = client;
  referrer_policy = no_policy;
  mode = cors;
  credentials = include;
  cache = default_cache;
  redirect = follow;
  integrity = [];
  unsafe_request = false;
  keepalive = false;
  client_window = true;
  signal = 7;
}

constructor-Checked_example : Checked web made
unfolding constructor apply_init finish check_request from_array append_header validate_header
    is_forbidden_request lower has_forbidden_prefix is_method_override is_forbidden_response
constructor-Checked_example =
    constructor-Checked web (of_text (codes "a")) (some plain_init) 7 made tt refl

fetch-Settled_example :
    Settled web version fetch_nothing
      (λ s. none)
      (λ s. none)
      (fetch web version fetch_nothing 21 []
        (λ s. none)
        (λ s. none)
        (of_text (codes "a"))
        (some plain_init)
        7
        0)
fetch-Settled_example =
    fetch-Settled web version fetch_nothing 21 [] (λ s. none) (λ s. none) (of_text (codes "a"))
      (some plain_init) 7 0 (omega arith)
