-- ===== src/Fetch/Headers/Guards/Making.antt =====
-- Guarded headers and the functions that make headers.
use spiderfire.Prelude.{◌≡◌, refl, sym, ap, subst, Bool, true, false, List, [], ◌∷◌, Text}
use spiderfire.Fetch.Headers.{HeaderMaps, Result, ok, err, HeadersKind, validate_header, ◌>>=◌}
use spiderfire.Fetch.Headers.Methods.{
  Headers, HeadersInit, existing, array, object, no_init, append_header, append_entries, from_array,
  parsed, append_to_headers, into_headers, with_kind,
}
use spiderfire.Fetch.Headers.Guards.{Guarded, append-Guarded, valid-Guarded}

pub bind-ok {κ μ} :
    {T : Type κ} {U : Type μ} (r : Result T) (next : T → Result U) {y : U}
    → (r >>= next) ≡ ok y
    → (x : T) × (r ≡ ok x) × (next x ≡ ok y)
bind-ok (err e) next h = cc
bind-ok (ok x) next h = (x, refl, h)

pub ok-inj {ℓ} : {A : Type ℓ} {a b : A} → ok a ≡ ok b → a ≡ b
ok-inj h = cc

module _ (h : HeaderMaps) where
  open h use {
    Map, append, insert, remove, get_all, get_all-empty, parse_name, parse_value, entries, empty,
  }

  append_header-Guarded :
      (kind : HeadersKind) (name value : Text) (m m' : Map)
      → Guarded h kind m
      → append_header h kind name value m ≡ ok m'
      → Guarded h kind m'
  unfolding append_header
  append_header-Guarded kind name value m m' g e =
      let (valid, v, r) = bind-ok (validate_header name value kind) _ e in
      subst (Guarded h kind) (ok-inj r) (
        valid-Guarded h kind name value value m (append name value m) valid g v
          (append-Guarded h kind name value m g))

  append_entries-Guarded :
      (kind : HeadersKind) (es : List (Text × Text)) (m m' : Map)
      → Guarded h kind m
      → append_entries h kind es m ≡ ok m'
      → Guarded h kind m'
  unfolding append_entries
  append_entries-Guarded kind [] m m' g e = subst (Guarded h kind) (ok-inj e) g
  append_entries-Guarded kind ((n, v) ∷ es) m m' g e =
      let (m1, e1, e2) = bind-ok (append_header h kind n v m) _ e in
      append_entries-Guarded kind es m1 m' (append_header-Guarded kind n v m m1 g e1) e2

  from_array-Guarded :
      (kind : HeadersKind) (es : List (Text × Text)) (m m' : Map)
      → Guarded h kind m
      → from_array h kind es m ≡ ok m'
      → Guarded h kind m'
  unfolding from_array
  from_array-Guarded kind [] m m' g e = subst (Guarded h kind) (ok-inj e) g
  from_array-Guarded kind (p ∷ es) m m' g e =
      let (q, e0, r) = bind-ok (parsed h p) _ e in
      let (m1, e1, e2) = bind-ok (append_header h kind q.0 q.1 m) _ r in
      from_array-Guarded kind es m1 m' (append_header-Guarded kind q.0 q.1 m m1 g e1) e2

  abbrev pub is_existing : HeadersInit h → Bool
  is_existing (existing other) = true
  is_existing (array vec) = false
  is_existing (object keys) = false
  is_existing no_init = false

  with_kind-Guarded :
      (kind : HeadersKind) (r : Result Map) (s : Headers h)
      → ((m' : Map) → r ≡ ok m' → Guarded h kind m')
      → with_kind h kind r ≡ ok s
      → (s.kind ≡ kind) × Guarded h kind s.headers
  with_kind-Guarded kind r s k e =
      let (m', e1, e2) = bind-ok r _ e in
      let same_headers = ok-inj e2 in
      (
        ap (λ x. x.kind) (sym same_headers),
        subst (λ x. Guarded h kind x.headers) same_headers (k m' e1),
      )

  with_kind_lem :
      (kind : HeadersKind) (r : Result Map) (s : Headers h)
      → with_kind h kind r ≡ ok s
      → s.kind ≡ kind
  with_kind_lem kind r s e = let (m', e1, e2) = bind-ok r _ e in ap (λ x. x.kind) (sym (ok-inj e2))

  pub into_headers_kind :
      (init : HeadersInit h) (m : Map) (kind : HeadersKind) (s : Headers h)
      → into_headers h init m kind ≡ ok s
      → s.kind ≡ kind
  unfolding into_headers
  into_headers_kind (existing other) m kind s e = ap (λ x. x.kind) (sym (ok-inj e))
  into_headers_kind (array vec) m kind s e = with_kind_lem kind (from_array h kind vec m) s e
  into_headers_kind (object keys) m kind s e = with_kind_lem kind _ s e
  into_headers_kind no_init m kind s e = ap (λ x. x.kind) (sym (ok-inj e))

  -- Headers that are made of pairs, of an object or of nothing, in a map that is guarded, have the
  -- kind that was asked for; every name in them is let in by the guard, and with the guard of a
  -- no-cors request every value has at most 128 characters.
  pub into_headers-Guarded :
      (init : HeadersInit h) (m : Map) (kind : HeadersKind) (s : Headers h)
      → is_existing init ≡ false
      → Guarded h kind m
      → into_headers h init m kind ≡ ok s
      → (s.kind ≡ kind) × Guarded h kind s.headers
  unfolding into_headers
  into_headers-Guarded (existing other) m kind s n g e = absurd (true-ne-false n)
    where
      true-ne-false : true ≡ false → ⊥
      true-ne-false p = cc
  into_headers-Guarded (array vec) m kind s n g e =
      with_kind-Guarded kind (from_array h kind vec m) s
        (λ m' p. from_array-Guarded kind vec m m' g p) e
  into_headers-Guarded (object keys) m kind s n g e =
      with_kind-Guarded kind _ s
        (λ m' p.
          let (o, e1, e2) = bind-ok (append_to_headers h keys empty) _ p in
          append_entries-Guarded kind (entries o) m m' g e2)
        e
  into_headers-Guarded no_init m kind s n g e =
      with_kind-Guarded kind (ok m) s (λ m' p. subst (Guarded h kind) (ok-inj p) g) e

  pub empty-Guarded : (kind : HeadersKind) → Guarded h kind empty
  empty-Guarded kind = record {
    allowed = λ j n. absurd (something (rw (get_all-empty j) at n));
    short = λ c j. rw (get_all-empty j) tt;
  }
    where
      something : true ≡ false → ⊥
      something e = cc
