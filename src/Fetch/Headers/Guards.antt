-- ===== src/Fetch/Headers/Guards.antt =====
-- What the guards of `Headers` keep out.
pub mod Making
pub mod Kept
use spiderfire.Prelude.{
  ℕ, ◌+◌, ◌≤◌, ◌≡◌, ◌≢◌, refl, sym, ap, ◌∙◌, subst, Bool, true, false, not, ◌&&◌, List, [], ◌∷◌,
  ◌++◌, Option, none, some, if◌then◌else◌, arith, inl, inr, ◌⊎◌, Bool-cases, ltb, is_empty, length,
  length-append, All, any, Text, same, same-eq,
}
use spiderfire.Fetch.Headers.{
  HeaderMaps, Result, ok, err, Error, HeadersKind, is_immutable, is_no_cors, validate_header,
  is_forbidden_request, has_forbidden_prefix, is_forbidden_response, is_safelisted, range_name,
  Header, display, ◌>>=◌, or_error,
}
use spiderfire.Fetch.Headers.Methods.{
  Headers, append_header, append_valid, passes_no_cors, validate_no_cors, remove_privileged,
  append_entries, from_array, set, delete, joined_with, get_header, check_content,
}

-- The names that a guard lets in.
pub record Allowed (kind : HeadersKind) (name : Text) : Type 0 where
  pub request : is_forbidden_request name ≡ false
  pub prefix : has_forbidden_prefix name ≡ false
  pub response : is_forbidden_response name ≡ false
  pub safelisted : is_no_cors kind ≡ true → is_safelisted name ≡ true

valid-names :
    (name value : Text) (kind : HeadersKind)
    → validate_header name value kind ≡ ok true
    → (is_forbidden_request name ≡ false)
      × (has_forbidden_prefix name ≡ false)
      × (is_forbidden_response name ≡ false)
unfolding validate_header
valid-names name value kind h = ground (arith, h)

All-append {ℓ} :
    {A : Type ℓ} (P : A → Type 0) (xs ys : List A) → All P xs → All P ys → All P (xs ++ ys)
All-append P [] ys a b = b
All-append P (x ∷ xs) ys a b = (a.0, All-append P xs ys a.1 b)

abbrev pub Short : Text → Type 0
Short v = length v ≤ 128

module _ (h : HeaderMaps) where
  open h use {
    Map, get_all, append, insert, remove, get_all-append, get_all-insert, get_all-remove,
    get_all-empty,
  }

  -- Every name in the map is let in by the guard, and with the guard of a no-cors request no value
  -- is longer than 128 characters.
  pub record Guarded (kind : HeadersKind) (m : Map) : Type 0 where
    pub allowed : (j : Text) → is_empty (get_all j m) ≡ false → Allowed kind j
    pub short : is_no_cors kind ≡ true → (j : Text) → All Short (get_all j m)

  length-joined : (o : Option Header) (v : Text) → length v ≤ length (joined_with h o v)
  length-joined none v = omega arith
  length-joined (some old) v = omega (arith, length-append (display old) (44 ∷ 32 ∷ v))

  no_cors-parts :
      (m : Map) (name value : Text)
      → validate_no_cors h m name value ≡ true
      → (is_safelisted name ≡ true) × (length value ≤ 128)
  unfolding validate_no_cors
  no_cors-parts m name value e = ground (arith, e, length-joined (get_header h name m) value)

  -- A list of values that is chosen by a test of two names.
  choose-Guarded :
      (kind : HeadersKind) (name : Text) (m m' : Map) (f : Text → List Text)
      → Guarded kind m
      → Allowed kind name
      → (is_no_cors kind ≡ true → (j : Text) → All Short (f j))
      → ((j : Text) → get_all j m' ≡ (if same name j then f j else get_all j m))
      → Guarded kind m'
  choose-Guarded kind name m m' f g a s e = record {
    allowed = λ j n. elim (Bool-cases (same name j)) [
      | inl hit ↦ subst (Allowed kind) (same-eq name j hit) a
      | inr miss ↦ g.allowed j (rw (e j, miss) at n)
    ];
    short = λ c j. rw (e j) (elim (Bool-cases (same name j)) [
      | inl hit ↦ rw hit (s c j)
      | inr miss ↦ rw miss (g.short c j)
    ]);
  }

  pub append-Guarded :
      (kind : HeadersKind) (name value : Text) (m : Map)
      → Guarded kind m
      → Allowed kind name
      → (is_no_cors kind ≡ true → Short value)
      → Guarded kind (append name value m)
  append-Guarded kind name value m g a s =
      choose-Guarded kind name m (append name value m) (λ j. get_all j m ++ value ∷ []) g a
        (λ c j. All-append Short (get_all j m) (value ∷ []) (g.short c j) (s c, tt))
        (λ j. get_all-append name value j m)

  pub insert-Guarded :
      (kind : HeadersKind) (name value : Text) (m : Map)
      → Guarded kind m
      → Allowed kind name
      → (is_no_cors kind ≡ true → Short value)
      → Guarded kind (insert name value m)
  insert-Guarded kind name value m g a s =
      choose-Guarded kind name m (insert name value m) (λ j. value ∷ []) g a (λ c j. (s c, tt))
        (λ j. get_all-insert name value j m)

  pub remove-Guarded :
      (kind : HeadersKind) (name : Text) (m : Map) → Guarded kind m → Guarded kind (remove name m)
  remove-Guarded kind name m g = record {
    allowed = λ j n. elim (Bool-cases (same name j)) [
      | inl hit ↦ absurd (nothing-left (rw (get_all-remove name j m, hit) at n))
      | inr miss ↦ g.allowed j (rw (get_all-remove name j m, miss) at n)
    ];
    short = λ c j. rw (get_all-remove name j m) (elim (Bool-cases (same name j)) [
      | inl hit ↦ rw hit tt
      | inr miss ↦ rw miss (g.short c j)
    ]);
  }
    where
      nothing-left : true ≡ false → ⊥
      nothing-left e = cc

  pub privileged-Guarded :
      (kind : HeadersKind) (m : Map) → Guarded kind m → Guarded kind (remove_privileged h kind m)
  unfolding remove_privileged
  privileged-Guarded kind m g = elim (Bool-cases (is_no_cors kind)) [
    | inl yes_it ↦ rw yes_it (remove-Guarded kind range_name m g)
    | inr no_it ↦ rw no_it g
  ]

  -- What has passed both tests.
  passed-Allowed :
      (kind : HeadersKind) (name value first : Text) (m : Map)
      → validate_header name first kind ≡ ok true
      → passes_no_cors h kind m name value ≡ true
      → Allowed kind name × (is_no_cors kind ≡ true → Short value)
  passed-Allowed kind name value first m v p =
      let (a, b, c) = valid-names name first kind v in
      (
        record {
          request = a;
          prefix = b;
          response = c;
          safelisted = λ n. (no_cors-parts m name value (rw n at p)).0;
        },
        λ n. (no_cors-parts m name value (rw n at p)).1,
      )

  pub valid-Guarded :
      (kind : HeadersKind) (name value first : Text) (m m' : Map) (valid : Bool)
      → Guarded kind m
      → validate_header name first kind ≡ ok valid
      → (Allowed kind name → (is_no_cors kind ≡ true → Short value) → Guarded kind m')
      → Guarded kind
          (if valid && passes_no_cors h kind m name value then remove_privileged h kind m' else m)
  valid-Guarded kind name value first m m' false g v k = g
  valid-Guarded kind name value first m m' true g v k =
      elim (Bool-cases (passes_no_cors h kind m name value)) [
        | inl p ↦
            let (a, s) = passed-Allowed kind name value first m v p in
            rw p (privileged-Guarded kind m' (k a s))
        | inr p ↦ rw p g
      ]
