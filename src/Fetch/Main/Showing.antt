-- ===== src/Fetch/Main/Showing.antt =====
-- What a script may see of a response.
use spiderfire.Fetch.Tests.{
  is_same_origin, is_no_cors_mode, unwrap_or, is_error, is_own_scheme, is_http, is_opaque_taint,
}
use spiderfire.Fetch.Tainting.{
  remove_each, cors_names, cors_filter, finish, filter_by, show, hides_range, drop_body,
}
use spiderfire.Prelude.{
  Option, none, some, ℕ, zero, suc, ◌≤◌, ◌<◌, ◌≡◌, refl, sym, ap, ◌∙◌, Bool, true, false, not, ◌&&◌,
  [], some, if◌then◌else◌, arith, Text,
}
use spiderfire.Fetch.Options.{
  RequestCredentials, ResponseKind, basic, cors_kind, default_kind, error_kind, opaque,
  opaque_redirect, ResponseTaint, basic_taint, cors_taint, opaque_taint,
}
use spiderfire.Fetch.Headers.{forbidden_response_headers, is_forbidden_response}
use spiderfire.Fetch.Web.{Web}
use spiderfire.Fetch.Requests.{Request}
use spiderfire.Fetch.Responses.{Response, network_error}
use spiderfire.Fetch.Tainting.Filtering.{remove_each-get_all}
use spiderfire.Fetch.Main.{by_own, Fetched, main_fetch, main_step, http_fetch, taint_of, is_blocked}
use spiderfire.Fetch.Main.Outcomes.{Ends, bind-Ends, if-Ends}
use spiderfire.Fetch.Main.Ending.{main_fetch-Ends, http_fetch-Ends, More}

module _ (w : Web) (version : Text) where
  open w use {Url, scheme, Net, maps}
  open maps use {Map, get_all, remove, get_all-remove, get_all-empty, get_all-keys, keys}

  -- The kinds that a script sees.
  abbrev pub is_seen : ResponseKind → Bool
  is_seen basic = true
  is_seen cors_kind = true
  is_seen default_kind = false
  is_seen error_kind = true
  is_seen opaque = false
  is_seen opaque_redirect = true

  pub record Shown (r : Response w) : Type 0 where
    pub seen : is_seen r.kind ≡ true
    pub hidden :
        is_error r.kind ≡ false
        → (j : Text) → is_forbidden_response j ≡ true
        → get_all j r.headers.headers ≡ []

  removed-Shown :
      (m : Map) (j : Text)
      → is_forbidden_response j ≡ true
      → get_all j (remove_each w forbidden_response_headers m) ≡ []
  unfolding is_forbidden_response
  removed-Shown m j f =
      remove_each-get_all w forbidden_response_headers m j
      ∙ ap (λ b. if b then [] else get_all j m) f

  if-Shown :
      (b : Bool) (r r' : Response w)
      → (b ≡ true → Shown r)
      → (b ≡ false → Shown r')
      → Shown (if b then r else r')
  if-Shown true r r' h h' = h refl
  if-Shown false r r' h h' = h' refl

  filter_by-Shown :
      (taint : ResponseTaint) (credentials : RequestCredentials) (r : Response w)
      → is_opaque_taint taint ≡ false
      → Shown (filter_by w taint credentials r)
  unfolding cors_filter
  filter_by-Shown basic_taint credentials r t = record {
    seen = refl;
    hidden = λ e j f. removed-Shown r.headers.headers j f;
  }
  filter_by-Shown cors_taint credentials r t = record {
    seen = refl;
    hidden = λ e j f.
        removed-Shown (remove_each w (cors_names w credentials r.headers.headers) r.headers.headers)
          j f;
  }
  filter_by-Shown opaque_taint credentials r t = absurd (true-false t)
    where
      true-false : true ≡ false → ⊥
      true-false e = cc

  error_seen : (k : ResponseKind) → is_error k ≡ true → is_seen k ≡ true
  error_seen basic e = refl
  error_seen cors_kind e = refl
  error_seen default_kind e = e
  error_seen error_kind e = refl
  error_seen opaque e = e
  error_seen opaque_redirect e = refl

  error-Shown : (r : Response w) → is_error r.kind ≡ true → Shown r
  error-Shown r e = record {
    seen = error_seen r.kind e;
    hidden = λ n. absurd (both_ways (sym e ∙ n));
  }
    where
      both_ways : true ≡ false → ⊥
      both_ways p = cc

  show-Shown :
      (taint : ResponseTaint) (b : Bool) (q : Request w) (r : Response w)
      → is_opaque_taint taint ≡ false
      → Shown (show w taint b q r)
  show-Shown taint true q r t = record { seen = refl; hidden = λ e j f. get_all-empty j }
  show-Shown taint false q r t = filter_by-Shown taint q.credentials (drop_body w q r) t

  finish-Shown :
      (taint : ResponseTaint) (opaque_redirects : Bool) (q : Request w) (r : Response w)
      → is_opaque_taint taint ≡ false
      → Shown (finish w taint opaque_redirects 0 q r)
  unfolding finish network_error
  finish-Shown taint b q r t =
      let r1 : Response w = record r { url = some (unwrap_or r.url q.url) } in
      if-Shown (is_error r.kind) _ _ (λ e. error-Shown (record r { redirected = false }) e)
        (λ e.
          if-Shown (not b && hides_range w taint r1) (record (network_error w) { url = r1.url })
            (show w taint b q r1) (λ h. error-Shown _ refl) (λ h. show-Shown taint b q r1 t))

  module _ (scheme_fetch : Text → Request w → Net → Option (Response w × Net)) where
    unfoldable pub Final : Fetched w version → Type 0
    Final f = Shown f.response

    taint_of-Shown : (q : Request w) → is_opaque_taint (taint_of w version scheme_fetch q) ≡ false
    taint_of-Shown q = chosen (is_no_cors_mode q.mode)
      where
        chosen : (b : Bool) → is_opaque_taint (if b then basic_taint else cors_taint) ≡ false
        chosen true = refl
        chosen false = refl

    -- A fetch with fuel 21 that does not panic returns a response whose kind is basic, cors, error
    -- or opaqueredirect, and which, unless it is an error, has no header of a name that is
    -- forbidden in responses (set-cookie and set-cookie2), whatever the network and the other
    -- schemes answered.
    by_own-Shown :
        (q : Request w) (o : Option (Response w × Net))
        → Ends Final (by_own w version scheme_fetch 0 q o)
    unfolding Ends Final
    by_own-Shown q none = tt
    by_own-Shown q (some a) = finish-Shown basic_taint false q a.0 refl

    -- A fetch with fuel 21 that does not panic returns a response whose kind is basic, cors, error
    -- or opaqueredirect, and which, unless it is an error, has no header of a name that is
    -- forbidden in responses (set-cookie and set-cookie2), whatever the network and the other
    -- schemes answered.
    pub main_fetch-Shown :
        (fuel : ℕ) (q : Request w) (net : Net)
        → 21 ≤ fuel
        → Ends Final (main_fetch w version scheme_fetch fuel 0 q net)
    unfolding main_fetch main_step Ends network_error Final
    main_fetch-Shown zero q net a = omega (arith, a)
    main_fetch-Shown (suc fuel) q net a =
        let main = main_fetch w version scheme_fetch fuel 1 in
        let ends_later = λ (q' : Request w) (net' : Net) (c : 0 < 20).
          main_fetch-Ends w version scheme_fetch fuel 1 q' net' (omega (arith, a)) (omega arith) in
        if-Ends Final (is_same_origin q.mode) _ _
          (finish-Shown basic_taint false q (network_error w) refl)
          (λ b.
            if-Ends Final (is_own_scheme (scheme q.url)) _ _
              (by_own-Shown q (scheme_fetch (scheme q.url) q net))
              (λ c.
                if-Ends Final (is_http (scheme q.url)) _ _
                  (if-Ends Final (is_blocked w version scheme_fetch q) _ _ (error-Shown _ refl)
                    (λ d.
                      bind-Ends (λ f. More w version 20 q f.0) Final
                        (http_fetch w version main (taint_of w version scheme_fetch q) 0 q net) _
                        (http_fetch-Ends w version main (taint_of w version scheme_fetch q) 0 q net
                          ends_later)
                        (λ f h.
                          finish-Shown (taint_of w version scheme_fetch q) f.1 f.0.request
                            f.0.response (taint_of-Shown q))))
                  (λ d. finish-Shown basic_taint false q (network_error w) refl)))
