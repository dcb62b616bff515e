-- ===== src/Fetch/Headers/Guards/Kept.antt =====
-- Guarded headers and the methods that change them.
use spiderfire.Prelude.{
  ◌≡◌, refl, ap, ◌∙◌, subst, Bool, true, false, not, ◌&&◌, [], Option, some, if◌then◌else◌, Text,
}
use spiderfire.Fetch.Headers.{
  HeaderMaps, Result, ok, err, readonly, HeadersKind, is_immutable, validate_header, ◌>>=◌,
  or_error, invalid_name, invalid_value, immutable,
}
use spiderfire.Fetch.Headers.Methods.{
  Headers, set, set_valid, delete, delete_valid, append_method, keeps_no_cors, remove_privileged,
}
use spiderfire.Fetch.Headers.Guards.Making.{bind-ok, ok-inj}
use spiderfire.Fetch.Headers.Guards.{
  Guarded, insert-Guarded, remove-Guarded, privileged-Guarded, valid-Guarded,
}

-- A method that checks the guard.
pub data Change : Type 0 where
  set_header : Text → Text → Change
  delete_header : Text → Change

module _ (h : HeaderMaps) where
  open h use {
    Map, append, insert, remove, get_all, get_all-empty, parse_name, parse_value, entries, empty,
  }

  -- Headers that take another map by a test.
  chosen-Guarded :
      (b : Bool) (m : Map) (s : Headers h)
      → Guarded h s.kind (if b then m else s.headers)
      → ((if b then record s { headers = m } else s).kind ≡ s.kind)
        × Guarded h s.kind (if b then record s { headers = m } else s).headers
  chosen-Guarded true m s g = (refl, g)
  chosen-Guarded false m s g = (refl, g)

  either-Guarded :
      (kind : HeadersKind) (b : Bool) (m m' : Map)
      → Guarded h kind m
      → Guarded h kind m'
      → Guarded h kind (if b then m else m')
  either-Guarded kind true m m' g g' = g
  either-Guarded kind false m m' g g' = g'

  unfoldable pub apply : Change → Headers h → Result (Headers h)
  apply (set_header n v) s = set h n v s
  apply (delete_header n) s = delete h n s

  -- If every name in the headers is let in by their guard, and with the guard of a no-cors request
  -- every value has at most 128 characters, this still holds after a set or a delete that
  -- succeeds, and the guard is the same.
  pub apply-Guarded :
      (c : Change) (s s' : Headers h)
      → Guarded h s.kind s.headers
      → apply c s ≡ ok s'
      → (s'.kind ≡ s.kind) × Guarded h s.kind s'.headers
  unfolding apply set delete
  apply-Guarded (set_header n v) s s' g e =
      let (name, e1, r1) = bind-ok (or_error invalid_name (parse_name n)) _ e in
      let (value, e2, r2) = bind-ok (or_error invalid_value (parse_value v)) _ r1 in
      let (valid, e3, r3) = bind-ok (validate_header name [] s.kind) _ r2 in
      subst (λ (x : Headers h). (x.kind ≡ s.kind) × Guarded h s.kind x.headers) (ok-inj r3)
        (chosen-Guarded _ (remove_privileged h s.kind (insert name value s.headers)) s (
          valid-Guarded h s.kind name value [] s.headers (insert name value s.headers) valid g e3
            (insert-Guarded h s.kind name value s.headers g)))
  apply-Guarded (delete_header n) s s' g e =
      let (name, e1, r1) = bind-ok (or_error invalid_name (parse_name n)) _ e in
      let (valid, e3, r3) = bind-ok (validate_header name [] s.kind) _ r1 in
      subst (λ (x : Headers h). (x.kind ≡ s.kind) × Guarded h s.kind x.headers) (ok-inj r3)
        (chosen-Guarded _ (remove_privileged h s.kind (remove name s.headers)) s (
          either-Guarded s.kind (valid && not (keeps_no_cors h s.kind name))
            (remove_privileged h s.kind (remove name s.headers)) s.headers
            (privileged-Guarded h s.kind (remove name s.headers)
              (remove-Guarded h s.kind name s.headers g))
            g))

  -- `Headers::append` asks no guard: every name that parses goes in, unless the headers are
  -- immutable.
  pub append_method-unguarded :
      (n v name value : Text) (s : Headers h)
      → is_immutable s.kind ≡ false
      → parse_name n ≡ some name
      → parse_value v ≡ some value
      → append_method h n v s ≡ ok (record s { headers = append name value s.headers })
  unfolding append_method
  append_method-unguarded n v name value s k a b =
      ap (λ x. if x then err readonly else rest (parse_name n) (parse_value v)) k
      ∙ ap (λ o. rest o (parse_value v)) a
      ∙ ap (rest (some name)) b
    where
      rest : Option Text → Option Text → Result (Headers h)
      rest o p = do
        x ← or_error invalid_name o
        y ← or_error invalid_value p
        ok (record s { headers = append x y s.headers })

  -- Headers that are immutable refuse every change.
  validate_header_immutable :
      (name value : Text) (kind : HeadersKind)
      → is_immutable kind ≡ true
      → validate_header name value kind ≡ err immutable
  unfolding validate_header
  validate_header_immutable name value kind k = rw k refl

  pub immutable_refuses :
      (n v name value : Text) (s : Headers h)
      → is_immutable s.kind ≡ true
      → parse_name n ≡ some name
      → parse_value v ≡ some value
      → (set h n v s ≡ err immutable)
        × (delete h n s ≡ err immutable)
        × (append_method h n v s ≡ err readonly)
  unfolding set delete append_method
  immutable_refuses n v name value s k a b =
      let r = validate_header_immutable name [] s.kind k in
      (
        ap
              (λ o. or_error invalid_name o >>= (λ x.
                or_error invalid_value (parse_value v)
                >>= (λ y. validate_header x [] s.kind >>= (λ z. ok (set_valid h x y s z)))))
              a
            ∙ ap
                (λ o.
                  or_error invalid_value o
                  >>= (λ y. validate_header name [] s.kind >>= (λ z. ok (set_valid h name y s z))))
                b
            ∙ ap (λ o. o >>= (λ z. ok (set_valid h name value s z))) r,
        ap
              (λ o.
                or_error invalid_name o
                >>= (λ x. validate_header x [] s.kind >>= (λ z. ok (delete_valid h x s z))))
              a
            ∙ ap (λ o. o >>= (λ z. ok (delete_valid h name s z))) r,
        rw k refl,
      )
