-- ===== src/Fetch/Options.antt =====
-- runtime/src/globals/fetch/request/options.rs and response/options.rs: the enumerations of a
-- request and of a response, with their texts. An error is none.
pub mod Texts
use Prim.Native.String.{String}
use text.Mathlib.Text.{◌==◌}
use spiderfire.Prelude.{◌≡◌, refl, Option, none, some, Bool, true, false, if◌then◌else◌, ◌&&◌}

pub data ReferrerPolicy : Type 0 where
  no_policy no_referrer no_referrer_when_downgrade origin origin_when_cross_origin : ReferrerPolicy
  same_origin strict_origin strict_origin_when_cross_origin unsafe_url : ReferrerPolicy

pub data RequestMode : Type 0 where
  same_origin_mode cors no_cors navigate websocket : RequestMode

pub data RequestCredentials : Type 0 where
  omit same_origin_credentials include : RequestCredentials

pub data RequestCache : Type 0 where
  default_cache no_store reload no_cache force_cache only_if_cached : RequestCache

pub data RequestRedirect : Type 0 where
  follow error_redirect manual : RequestRedirect

pub data RequestPriority : Type 0 where
  high low auto : RequestPriority

-- `ReferrerPolicy::from_str` and its `Display`
unfoldable pub parse_policy : String → Option ReferrerPolicy
parse_policy s =
    if s == ""
    then some no_policy
    else if s == "no-referrer"
    then some no_referrer
    else if s == "no-referrer-when-downgrade"
    then some no_referrer_when_downgrade
    else if s == "origin"
    then some origin
    else if s == "origin-when-cross-origin"
    then some origin_when_cross_origin
    else if s == "same-origin"
    then some same_origin
    else if s == "strict-origin"
    then some strict_origin
    else if s == "strict-origin-when-cross-origin"
    then some strict_origin_when_cross_origin
    else if s == "unsafe-url"
    then some unsafe_url
    else none

unfoldable pub print_policy : ReferrerPolicy → String
print_policy no_policy = ""
print_policy no_referrer = "no-referrer"
print_policy no_referrer_when_downgrade = "no-referrer-when-downgrade"
print_policy origin = "origin"
print_policy origin_when_cross_origin = "origin-when-cross-origin"
print_policy same_origin = "same-origin"
print_policy strict_origin = "strict-origin"
print_policy strict_origin_when_cross_origin = "strict-origin-when-cross-origin"
print_policy unsafe_url = "unsafe-url"

-- `RequestMode::from_str` and its `Display`
unfoldable pub parse_mode : String → Option RequestMode
parse_mode s =
    if s == "same-origin"
    then some same_origin_mode
    else if s == "cors"
    then some cors
    else if s == "no-cors"
    then some no_cors
    else if s == "navigate"
    then some navigate
    else none

unfoldable pub print_mode : RequestMode → String
print_mode same_origin_mode = "same-origin"
print_mode cors = "cors"
print_mode no_cors = "no-cors"
print_mode navigate = "navigate"
print_mode websocket = "websocket"

-- `RequestCredentials::from_str` and its `Display`
unfoldable pub parse_credentials : String → Option RequestCredentials
parse_credentials s =
    if s == "omit"
    then some omit
    else if s == "same-origin"
    then some same_origin_credentials
    else if s == "include"
    then some include
    else none

unfoldable pub print_credentials : RequestCredentials → String
print_credentials omit = "omit"
print_credentials same_origin_credentials = "same-origin"
print_credentials include = "include"

-- `RequestCache::from_str` and its `Display`
unfoldable pub parse_cache : String → Option RequestCache
parse_cache s =
    if s == "default"
    then some default_cache
    else if s == "no-store"
    then some no_store
    else if s == "reload"
    then some reload
    else if s == "no-cache"
    then some no_cache
    else if s == "force-cache"
    then some force_cache
    else if s == "only-if-cached"
    then some only_if_cached
    else none

unfoldable pub print_cache : RequestCache → String
print_cache default_cache = "default"
print_cache no_store = "no-store"
print_cache reload = "reload"
print_cache no_cache = "no-cache"
print_cache force_cache = "force-cache"
print_cache only_if_cached = "only-if-cached"

-- `RequestRedirect::from_str` and its `Display`
unfoldable pub parse_redirect : String → Option RequestRedirect
parse_redirect s =
    if s == "follow"
    then some follow
    else if s == "error"
    then some error_redirect
    else if s == "manual"
    then some manual
    else none

unfoldable pub print_redirect : RequestRedirect → String
print_redirect follow = "follow"
print_redirect error_redirect = "error"
print_redirect manual = "manual"

-- `RequestPriority::from_str`
unfoldable pub parse_priority : String → Option RequestPriority
parse_priority s =
    if s == "high"
    then some high
    else if s == "low"
    then some low
    else if s == "auto"
    then some auto
    else none

pub data ResponseKind : Type 0 where
  basic cors_kind default_kind error_kind opaque opaque_redirect : ResponseKind

unfoldable pub print_kind : ResponseKind → String
print_kind basic = "basic"
print_kind cors_kind = "cors"
print_kind default_kind = "default"
print_kind error_kind = "error"
print_kind opaque = "opaque"
print_kind opaque_redirect = "opaqueredirect"

pub data ResponseTaint : Type 0 where
  basic_taint cors_taint opaque_taint : ResponseTaint
