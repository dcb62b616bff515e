-- ===== src/Fetch/Requests/Checks.antt =====
-- What a request that is constructed satisfies.
use spiderfire.Fetch.Tests.{
  is_navigate, is_same_origin, is_no_cors_mode, is_only_if_cached, is_forbidden, is_simple, or,
}
use spiderfire.Prelude.{
  ℕ, ◌≡◌, refl, subst, Bool, true, false, not, ◌&&◌, Option, none, some, if◌then◌else◌, arith, Text,
  uppercase,
}
use spiderfire.Fetch.Options.{RequestMode}
use spiderfire.Fetch.Headers.{Result, ok, err, or_error, Error, invalid_url, invalid_method}
use spiderfire.Fetch.Headers.Methods.{Headers, HeadersInit, into_headers}
use spiderfire.Fetch.Headers.Guards.Making.{bind-ok, ok-inj, into_headers_kind}
use spiderfire.Fetch.Web.{Web, FetchBody}
use spiderfire.Fetch.Requests.{
  finish, Request, RequestInfo, of_request, of_text, RequestInit, clone, new_request, base_of,
  check_window, set_mode, set_method, set_options, set_referrer, no_navigate, apply_init,
  check_request, kind_of, init_headers, with_body, constructor, fallback,
}

false-true {ℓ} : {A : Type ℓ} {e : Error} {a : A} → err e ≡ ok a → ⊥
false-true h = cc

-- A result that a test guards.
guarded-ok {ℓ} :
    {A : Type ℓ} (b : Bool) (e : Error) (m : Result A) {a : A}
    → (if b then err e else m) ≡ ok a
    → (b ≡ false) × (m ≡ ok a)
guarded-ok true e m h = absurd (false-true h)
guarded-ok false e m h = (refl, h)

module _ (w : Web) where
  open w use {Url, parse_url, parse_method, username, password, maps}

  -- Method and mode, which the last checks do not look at.
  pub record Plain (r : Request w) : Type 0 where
    pub allowed : is_forbidden r.method ≡ false
    pub no_navigation : is_navigate r.mode ≡ false

  pub record Checked (r : Request w) : Type 0 where
    pub plain : Plain r
    pub simple : is_no_cors_mode r.mode ≡ true → is_simple r.method ≡ true
    pub cache : is_only_if_cached r.cache ≡ true → is_same_origin r.mode ≡ true
    pub kind : r.headers.kind ≡ kind_of w r.mode

  abbrev pub InfoChecked : RequestInfo w → Type 0
  InfoChecked (of_request r) = Checked r
  InfoChecked (of_text text) = Unit

  base_of-Plain :
      (info : RequestInfo w) (signal : ℕ) (b : Request w × Bool)
      → InfoChecked info
      → base_of w info signal ≡ ok b
      → Plain b.0
  unfolding base_of clone new_request
  base_of-Plain (of_request r) signal b c h =
      subst (λ (x : Request w × Bool). Plain x.0) (ok-inj h)
        (record { allowed = c.plain.allowed; no_navigation = c.plain.no_navigation })
  base_of-Plain (of_text text) signal b c h =
      let (url, e1, r1) = bind-ok (or_error invalid_url (parse_url none text)) _ h in
      let (e2, r2) = guarded-ok _ _ _ r1 in
      subst (λ (x : Request w × Bool). Plain x.0) (ok-inj r2)
        (record { allowed = refl; no_navigation = refl })

  check_window-Plain :
      (o : Option Bool) (r r' : Request w) → Plain r → check_window w o r ≡ ok r' → Plain r'
  check_window-Plain none r r' p h = subst Plain (ok-inj h) p
  check_window-Plain (some true) r r' p h =
      subst Plain (ok-inj h) (record { allowed = p.allowed; no_navigation = p.no_navigation })
  check_window-Plain (some false) r r' p h = absurd (false-true h)

  set_mode-Plain :
      (o : Option RequestMode) (r r' : Request w) → Plain r → set_mode w o r ≡ ok r' → Plain r'
  set_mode-Plain none r r' p h = subst Plain (ok-inj h) p
  set_mode-Plain (some mode) r r' p h =
      let (e, k) = guarded-ok _ _ _ h in
      subst Plain (ok-inj k) (record { allowed = p.allowed; no_navigation = e })

  set_method-Plain :
      (o : Option Text) (r r' : Request w) → Plain r → set_method w o r ≡ ok r' → Plain r'
  set_method-Plain none r r' p h = subst Plain (ok-inj h) p
  set_method-Plain (some text) r r' p h =
      let (m, e1, r1) = bind-ok (or_error invalid_method (parse_method (uppercase text))) _ h in
      let (e2, r2) = guarded-ok _ _ _ r1 in
      subst Plain (ok-inj r2) (record { allowed = e2; no_navigation = p.no_navigation })

  no_navigate-Plain : (r : Request w) → Plain r → Plain (no_navigate w r)
  no_navigate-Plain r p = rw p.no_navigation p

  apply_init-Plain :
      (i : RequestInit w) (f : Bool) (r r' : Request w)
      → Plain r
      → apply_init w i f r ≡ ok r'
      → Plain r'
  unfolding apply_init
  apply_init-Plain i f r r' p h =
      let (r1, e1, h1) = bind-ok (check_window w i.window r) _ h in
      let (r2, e2, h2) =
        bind-ok (set_mode w (or i.mode (fallback w f)) (set_referrer w i (no_navigate w r1))) _
          h1 in
      let p1 = no_navigate-Plain r1 (check_window-Plain i.window r r1 p e1) in
      let p2 =
        set_mode-Plain (or i.mode (fallback w f)) (set_referrer w i (no_navigate w r1)) r2
          (record { allowed = p1.allowed; no_navigation = p1.no_navigation }) e2 in
      set_method-Plain i.method (set_options w i r2) r'
        (record { allowed = p2.allowed; no_navigation = p2.no_navigation }) h2

  with_body-kind :
      (body : Option FetchBody) (hs : Headers maps) (r : Request w)
      → (with_body w body hs r).headers.kind ≡ hs.kind
  with_body-kind none hs r = refl
  with_body-kind (some b) hs r = refl

  with_body-Checked :
      (body : Option FetchBody) (hs : Headers maps) (r : Request w)
      → Plain r
      → is_only_if_cached r.cache && not (is_same_origin r.mode) ≡ false
      → is_no_cors_mode r.mode && not (is_simple r.method) ≡ false
      → hs.kind ≡ kind_of w r.mode
      → Checked (with_body w body hs r)
  with_body-Checked none hs r p a b k = record {
    plain = record { allowed = p.allowed; no_navigation = p.no_navigation };
    simple = λ e. ground (arith, b, e);
    cache = λ e. ground (arith, a, e);
    kind = k;
  }
  with_body-Checked (some c) hs r p a b k = record {
    plain = record { allowed = p.allowed; no_navigation = p.no_navigation };
    simple = λ e. ground (arith, b, e);
    cache = λ e. ground (arith, a, e);
    kind = k;
  }

  finish-Checked :
      (headers : Option (HeadersInit maps)) (body : Option FetchBody) (r r' : Request w)
      → Plain r
      → finish w headers body r ≡ ok r'
      → Checked r'
  unfolding finish check_request
  finish-Checked headers body r r' p h =
      let (r1, e1, h1) = bind-ok (check_request w r) _ h in
      let (hs, e2, h2) =
        bind-ok (into_headers maps (init_headers w headers) maps.empty (kind_of w r1.mode)) _ h1 in
      let (a, k1) = guarded-ok _ _ _ e1 in
      let (b, k2) = guarded-ok _ _ _ k1 in
      subst Checked (ok-inj h2) (
        with_body-Checked body hs r1 (subst Plain (ok-inj k2) p)
          (subst
            (λ (x : Request w). is_only_if_cached x.cache && not (is_same_origin x.mode) ≡ false)
            (ok-inj k2) a)
          (subst (λ (x : Request w). is_no_cors_mode x.mode && not (is_simple x.method) ≡ false)
            (ok-inj k2) b)
          (into_headers_kind maps (init_headers w headers) maps.empty (kind_of w r1.mode) hs e2))

  -- A request that the constructor makes, of a text or of a request that satisfies the same, has
  -- no forbidden method (CONNECT, TRACE) and no mode navigate; with mode no-cors its method is
  -- GET, HEAD or POST; with cache only-if-cached its mode is same-origin; and its headers have the
  -- kind of its mode.
  pub constructor-Checked :
      (info : RequestInfo w) (init : Option (RequestInit w)) (signal : ℕ) (r : Request w)
      → InfoChecked info
      → constructor w info init signal ≡ ok r
      → Checked r
  unfolding constructor
  constructor-Checked info none signal r c h =
      let (b, e, k) = bind-ok (base_of w info signal) _ h in
      finish-Checked none none b.0 r (base_of-Plain info signal b c e) k
  constructor-Checked info (some i) signal r c h =
      let (b, e1, h1) = bind-ok (base_of w info signal) _ h in
      let (r1, e2, h2) = bind-ok (apply_init w i b.1 b.0) _ h1 in
      finish-Checked i.headers i.body r1 r
        (apply_init-Plain i b.1 b.0 r1 (base_of-Plain info signal b c e1) e2) h2
