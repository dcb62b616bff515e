-- ===== src/Fetch/Tests.antt =====
-- Boolean tests on the enumerations, ports, schemes and statuses of a fetch.
use spiderfire.Prelude.{
  ℕ, Bool, true, false, ◌&&◌, ◌||◌, List, [], ◌∷◌, Option, none, some, ◌==◌, ltb, leb, any, Text,
  codes, same, is_member,
}
use spiderfire.Fetch.Options.{
  RequestCredentials, omit, same_origin_credentials, include, RequestRedirect, follow,
  error_redirect, manual, ResponseKind, basic, cors_kind, default_kind, error_kind, opaque,
  opaque_redirect, ResponseTaint, basic_taint, cors_taint, opaque_taint,
}
use spiderfire.Fetch.Web.{
  Method, get_method, head_method, post_method, put_method, connect_method, trace_method,
  other_method,
}
use spiderfire.Fetch.Options.{
  RequestMode, same_origin_mode, cors, no_cors, navigate, websocket, RequestCache, default_cache,
  no_store, reload, no_cache, force_cache, only_if_cached,
}

abbrev pub is_navigate : RequestMode → Bool
is_navigate same_origin_mode = false
is_navigate cors = false
is_navigate no_cors = false
is_navigate navigate = true
is_navigate websocket = false

abbrev pub is_same_origin : RequestMode → Bool
is_same_origin same_origin_mode = true
is_same_origin cors = false
is_same_origin no_cors = false
is_same_origin navigate = false
is_same_origin websocket = false

abbrev pub is_no_cors_mode : RequestMode → Bool
is_no_cors_mode same_origin_mode = false
is_no_cors_mode cors = false
is_no_cors_mode no_cors = true
is_no_cors_mode navigate = false
is_no_cors_mode websocket = false

abbrev pub is_only_if_cached : RequestCache → Bool
is_only_if_cached default_cache = false
is_only_if_cached no_store = false
is_only_if_cached reload = false
is_only_if_cached no_cache = false
is_only_if_cached force_cache = false
is_only_if_cached only_if_cached = true

abbrev pub is_forbidden : Method → Bool
is_forbidden get_method = false
is_forbidden head_method = false
is_forbidden post_method = false
is_forbidden put_method = false
is_forbidden connect_method = true
is_forbidden trace_method = true
is_forbidden (other_method m) = false

-- GET, HEAD and POST
abbrev pub is_simple : Method → Bool
is_simple get_method = true
is_simple head_method = true
is_simple post_method = true
is_simple put_method = false
is_simple connect_method = false
is_simple trace_method = false
is_simple (other_method m) = false

abbrev pub unwrap_or {ℓ} : {A : Type ℓ} → Option A → A → A
unwrap_or none a = a
unwrap_or (some b) a = b

abbrev pub is_some {ℓ} : {A : Type ℓ} → Option A → Bool
is_some none = false
is_some (some a) = true

abbrev pub or {ℓ} : {A : Type ℓ} → Option A → Option A → Option A
or none b = b
or (some a) b = some a

abbrev pub bad_ports : List ℕ
bad_ports =
    1 ∷ 7 ∷ 9 ∷ 11 ∷ 13 ∷ 15 ∷ 17 ∷ 19 ∷ 20 ∷ 21 ∷ 22 ∷ 23 ∷ 25 ∷ 37 ∷ 42 ∷ 43 ∷ 53 ∷ 69 ∷ 77 ∷ 79
    ∷ 87 ∷ 95 ∷ 101 ∷ 102 ∷ 103 ∷ 104 ∷ 109 ∷ 110 ∷ 111 ∷ 113 ∷ 115 ∷ 117 ∷ 119 ∷ 123 ∷ 135 ∷ 137
    ∷ 139 ∷ 143 ∷ 161 ∷ 179 ∷ 389 ∷ 427 ∷ 465 ∷ 512 ∷ 513 ∷ 514 ∷ 515 ∷ 526 ∷ 530 ∷ 531 ∷ 532 ∷ 540
    ∷ 548 ∷ 554 ∷ 556 ∷ 563 ∷ 587 ∷ 601 ∷ 636 ∷ 989 ∷ 990 ∷ 993 ∷ 995 ∷ 1719 ∷ 1720 ∷ 1723 ∷ 2049
    ∷ 3659 ∷ 4045 ∷ 5060 ∷ 5061 ∷ 6000 ∷ 6566 ∷ 6665 ∷ 6666 ∷ 6667 ∷ 6668 ∷ 6669 ∷ 6697 ∷ 10080 ∷ []

abbrev pub schemes : List Text
schemes = codes "about" ∷ codes "blob" ∷ codes "data" ∷ codes "file" ∷ []

unfoldable pub is_bad_port : Option ℕ → Bool
is_bad_port none = false
is_bad_port (some p) = any (λ q. p == q) bad_ports

unfoldable pub is_http : Text → Bool
unfolding same
is_http s = same s (codes "https") || same s (codes "http")

unfoldable pub is_own_scheme : Text → Bool
unfolding same
is_own_scheme s = is_member s schemes

abbrev pub is_error : ResponseKind → Bool
is_error basic = false
is_error cors_kind = false
is_error default_kind = false
is_error error_kind = true
is_error opaque = false
is_error opaque_redirect = false

abbrev pub is_opaque_taint : ResponseTaint → Bool
is_opaque_taint basic_taint = false
is_opaque_taint cors_taint = false
is_opaque_taint opaque_taint = true

abbrev pub is_cors_taint : ResponseTaint → Bool
is_cors_taint basic_taint = false
is_cors_taint cors_taint = true
is_cors_taint opaque_taint = false

abbrev pub includes : RequestCredentials → Bool
includes omit = false
includes same_origin_credentials = false
includes include = true

abbrev pub is_follow : RequestRedirect → Bool
is_follow follow = true
is_follow error_redirect = false
is_follow manual = false

abbrev pub is_post : Method → Bool
is_post get_method = false
is_post head_method = false
is_post post_method = true
is_post put_method = false
is_post connect_method = false
is_post trace_method = false
is_post (other_method m) = false

-- HEAD or CONNECT
abbrev pub has_no_body : Method → Bool
has_no_body get_method = false
has_no_body head_method = true
has_no_body post_method = false
has_no_body put_method = false
has_no_body connect_method = true
has_no_body trace_method = false
has_no_body (other_method m) = false

-- GET or HEAD
abbrev pub only_reads : Method → Bool
only_reads get_method = true
only_reads head_method = true
only_reads post_method = false
only_reads put_method = false
only_reads connect_method = false
only_reads trace_method = false
only_reads (other_method m) = false

abbrev pub is_status : ℕ → Option ℕ → Bool
is_status n none = false
is_status n (some s) = s == n

abbrev pub is_redirection : Option ℕ → Bool
is_redirection none = false
is_redirection (some s) = leb 300 s && ltb s 400

-- 103, 101, 204, 205 and 304
abbrev pub is_null_body : Option ℕ → Bool
is_null_body s =
    is_status 103 s || is_status 101 s || is_status 204 s || is_status 205 s || is_status 304 s
