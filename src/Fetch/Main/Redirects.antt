-- ===== src/Fetch/Main/Redirects.antt =====
-- The redirects that a fetch follows.
use spiderfire.Fetch.Tests.{is_http, is_cors_taint, is_status, is_some}
use spiderfire.Fetch.Redirecting.{
  Outcome, done, panics, out_of_fuel, ◌>>=◌, or_panics, Redirect, stop, go, redirect, redirect_to,
  redirected_request, redirected, find_policy, value_policy, choose_redirect, parsed_redirect,
  with_fragment, becomes_get, has_credentials, to_get,
}
use spiderfire.Prelude.{
  ℕ, zero, suc, ◌<◌, ◌≡◌, refl, Bool, true, false, not, ◌&&◌, List, [], ◌∷◌, Option, none, some,
  if◌then◌else◌, arith, leb, length, length-append, Bool-cases, inl, inr, Text, codes, ◌==◌, ◌||◌,
  is_empty, ap,
}
use spiderfire.Fetch.Options.{ResponseTaint, ReferrerPolicy}
use spiderfire.Fetch.Web.{
  Web, Method, get_method, head_method, post_method, put_method, connect_method, trace_method,
  other_method,
}
use spiderfire.Fetch.Requests.{Request}
use spiderfire.Fetch.Responses.{Response, network_error}
use spiderfire.Fetch.Network.{streams}
use spiderfire.Fetch.Main.Outcomes.{Ends, bind-Ends, or_panics-Ends, if-Ends}

-- Whether a request is followed with GET: a POST that is answered by 301 or 302, and what is
-- neither GET nor HEAD and is answered by 303.
unfoldable pub turns_to_get : Option ℕ → Method → Bool
turns_to_get none method = false
turns_to_get (some s) get_method = false
turns_to_get (some s) head_method = false
turns_to_get (some s) post_method = s == 301 || s == 302 || s == 303
turns_to_get (some s) put_method = s == 303
turns_to_get (some s) connect_method = s == 303
turns_to_get (some s) trace_method = s == 303
turns_to_get (some s) (other_method m) = s == 303

module _ (w : Web) (version : Text) where
  open w use {Url, scheme, size_hint, parse_url, from_utf8, Net, maps}
  open maps use {get_all}

  -- A request that a redirect makes.
  pub record Safe (taint : ResponseTaint) (redirections : ℕ) (status : Option ℕ) (q q' : Request w)
      : Type 0 where
    pub few : redirections < 20
    pub web : is_http (scheme q'.url) ≡ true
    pub no_credentials : is_cors_taint taint ≡ true → has_credentials w q'.url ≡ false
    pub once_more : length q'.locations ≡ suc (length q.locations)
    pub method : q'.method ≡ (if turns_to_get status q.method then get_method else q.method)
    pub body : q'.body ≡ (if turns_to_get status q.method then none else q.body)
    pub mode : q'.mode ≡ q.mode
    pub no_stream : is_status 303 status ≡ false → streams q.body ≡ false

  unfoldable pub Followed : ResponseTaint → ℕ → Request w → Response w → Redirect w → Type 0
  Followed taint redirections q r (stop r') = Unit
  Followed taint redirections q r (go q') = Safe taint redirections r.status q q'

  refused :
      (taint : ResponseTaint) (n : ℕ) (q : Request w) (r : Response w) (b : Bool)
      (x : Outcome (Redirect w))
      → (b ≡ false → Ends (Followed taint n q r) x)
      → Ends (Followed taint n q r) (if b then done (stop (network_error w)) else x)
  unfolding Ends Followed
  refused taint n q r b x k = if-Ends (Followed taint n q r) b _ x tt k

  becomes_get-eq : (status : Option ℕ) (m : Method) → becomes_get w status m ≡ turns_to_get status m
  unfolding turns_to_get
  becomes_get-eq none get_method = refl
  becomes_get-eq none head_method = refl
  becomes_get-eq none post_method = refl
  becomes_get-eq none put_method = refl
  becomes_get-eq none connect_method = refl
  becomes_get-eq none trace_method = refl
  becomes_get-eq none (other_method m) = refl
  becomes_get-eq (some s) get_method = ground arith
  becomes_get-eq (some s) head_method = ground arith
  becomes_get-eq (some s) post_method = ground arith
  becomes_get-eq (some s) put_method = ground arith
  becomes_get-eq (some s) connect_method = ground arith
  becomes_get-eq (some s) trace_method = ground arith
  becomes_get-eq (some s) (other_method m) = ground arith

  find_policy-Ends : (vs : List Text) → Ends (λ p. Unit) (find_policy w vs)
  unfolding find_policy Ends
  find_policy-Ends [] = tt
  find_policy-Ends (v ∷ vs) =
      bind-Ends (λ p. Unit) (λ p. Unit) (find_policy w vs) _ (find_policy-Ends vs)
        (λ later h. if-Ends (λ p. Unit) (is_some later) _ _ tt (λ e. at_value v))
    where
      at_value : (v : Text) → Ends (λ p. Unit) (value_policy w v)
      at_value v =
          if-Ends (λ p. Unit) (is_empty v) _ _ tt
            (λ e.
              bind-Ends (λ t. Unit) (λ p. Unit) (or_panics (from_utf8 v)) _
                (or_panics-Ends (from_utf8 v)) (λ t h. tt))

  made-Safe :
      (taint : ResponseTaint) (n : ℕ) (q : Request w) (r : Response w) (u : Url)
      (policy : Option ReferrerPolicy)
      → not (is_http (scheme u)) ≡ false
      → leb 20 n ≡ false
      → is_cors_taint taint && has_credentials w u ≡ false
      → not (is_status 303 r.status) && streams q.body ≡ false
      → Safe taint n r.status q (redirected w u r.status policy q)
  made-Safe taint n q r u policy a b c d = record {
    few = ground (arith, b);
    web = ground (arith, a);
    no_credentials = λ e. ground (arith, c, e);
    once_more = elim (Bool-cases (becomes_get w r.status q.method)) [
      | inl y ↦ rw y (omega (arith, length-append q.locations (u ∷ [])))
      | inr y ↦ rw y (omega (arith, length-append q.locations (u ∷ [])))
    ];
    method = method_of (becomes_get w r.status q.method) (becomes_get-eq r.status q.method);
    body = body_of (becomes_get w r.status q.method) (becomes_get-eq r.status q.method);
    mode = elim (Bool-cases (becomes_get w r.status q.method)) [
      | inl y ↦ rw y refl
      | inr y ↦ rw y refl
    ];
    no_stream = λ e. ground (arith, d, e);
  }
    where
      method_of :
          (b : Bool)
          → b ≡ turns_to_get r.status q.method
          → (if b then to_get w q else q).method
            ≡ (if turns_to_get r.status q.method then get_method else q.method)
      method_of true e = ap (λ x. if x then get_method else q.method) e
      method_of false e = ap (λ x. if x then get_method else q.method) e

      body_of :
          (b : Bool)
          → b ≡ turns_to_get r.status q.method
          → (if b then to_get w q else q).body
            ≡ (if turns_to_get r.status q.method then none else q.body)
      body_of true e = ap (λ x. if x then none else q.body) e
      body_of false e = ap (λ x. if x then none else q.body) e

  to_request-Followed :
      (taint : ResponseTaint) (n : ℕ) (q : Request w) (r : Response w) (u : Url)
      (policies : List Text)
      → not (is_http (scheme u)) ≡ false
      → leb 20 n ≡ false
      → is_cors_taint taint && has_credentials w u ≡ false
      → not (is_status 303 r.status) && streams q.body ≡ false
      → Ends
          (Followed taint n q r)
          (redirected_request w u r.status policies q >>= λ q'. done (go q'))
  unfolding redirected_request Followed Ends
  to_request-Followed taint n q r u policies a b c d =
      at_policy (find_policy w policies) (find_policy-Ends policies)
    where
      at_policy :
          (o : Outcome (Option ReferrerPolicy))
          → Ends (λ p. Unit) o
          → Ends
              (Followed taint n q r)
              (o >>= (λ p. done (redirected w u r.status p q)) >>= λ q'. done (go q'))
      at_policy (done p) h = made-Safe taint n q r u p a b c d
      at_policy panics h = tt
      at_policy out_of_fuel h = h

  redirect_to-Followed :
      (taint : ResponseTaint) (n : ℕ) (q : Request w) (r : Response w) (u : Url)
      → Ends (Followed taint n q r) (redirect_to w taint n q r u)
  unfolding redirect_to
  redirect_to-Followed taint n q r u = refused taint n q r _ _ (λ a. refused taint n q r _ _ (λ b.
      refused taint n q r _ _
        (λ c. refused taint n q r _ _ (λ d. to_request-Followed taint n q r u _ a b c d))))

  choose_redirect-Followed :
      (taint : ResponseTaint) (n : ℕ) (q : Request w) (r : Response w) (bound : Option ℕ)
      (vs : List Text)
      → Ends (Followed taint n q r) (choose_redirect w taint n q r bound vs)
  unfolding Ends Followed
  choose_redirect-Followed taint n q r none vs = tt
  choose_redirect-Followed taint n q r (some zero) vs = tt
  choose_redirect-Followed taint n q r (some (suc k)) [] = tt
  choose_redirect-Followed taint n q r (some (suc k)) (v ∷ vs) =
      bind-Ends (λ a. Unit) (Followed taint n q r) (or_panics (from_utf8 v)) _
        (or_panics-Ends (from_utf8 v)) (λ t h. at_url (parse_url r.url (codes t)))
    where
      at_url : (o : Option Url) → Ends (Followed taint n q r) (parsed_redirect w taint n q r o)
      at_url none = tt
      at_url (some u) = redirect_to-Followed taint n q r (with_fragment w r.url u)

  -- When a redirect is followed, fewer than 20 were followed before, the new URL is of http or
  -- https, has no credentials if the taint is cors, and is one location more; the mode stays; the
  -- method becomes GET and the body is dropped exactly for a POST answered by 301, 302 or 303 and
  -- for any other method but GET and HEAD answered by 303; and a body that is a stream is followed
  -- for 303 only.
  pub redirect-Followed :
      (taint : ResponseTaint) (n : ℕ) (q : Request w) (r : Response w)
      → Ends (Followed taint n q r) (redirect w taint n q r)
  unfolding redirect
  redirect-Followed taint n q r = choose_redirect-Followed taint n q r _ _
