-- ===== src/Fetch/Headers/Iteration.antt =====
-- runtime/src/globals/fetch/header.rs: `Headers::iterator` and `HeadersIterator`.
use spiderfire.Prelude.{
  ℕ, zero, suc, ◌≡◌, refl, ap, ◌∙◌, Bool, true, false, ◌&&◌, ◌||◌, List, [], ◌∷◌, ◌++◌, map, Option,
  none, some, if◌then◌else◌, ltb, length, All, Text, same, lowercase, ◌==◌,
}
use spiderfire.Fetch.Headers.{HeaderMaps, set_cookie, Header, display}
use spiderfire.Fetch.Headers.Methods.{get_header}

-- The order of strings, by their bytes; names are ASCII.
unfoldable pub text_leb : Text → Text → Bool
text_leb [] t = true
text_leb (x ∷ s) [] = false
text_leb (x ∷ s) (y ∷ t) = let rest = text_leb s t in ltb x y || ((x == y) && rest)

unfoldable pub insert_name : Text → List Text → List Text
unfolding text_leb
insert_name s [] = s ∷ []
insert_name s (t ∷ ts) =
    let rest = insert_name s ts in if text_leb s t then s ∷ t ∷ ts else t ∷ rest

unfoldable pub sort_names : List Text → List Text
unfolding insert_name
sort_names [] = []
sort_names (s ∷ ss) = insert_name s (sort_names ss)

-- One `set-cookie` for each cookie.
abbrev pub copies : List Text → List Text
copies [] = []
copies (v ∷ vs) = set_cookie ∷ copies vs

-- `HeadersIterator`
pub record HeadersIterator : Type 0 where
  pub keys : List Text
  pub cookies : List Text

module _ (h : HeaderMaps) where
  open h use {Map, get_all, keys}

  unfoldable pub iterator : Map → HeadersIterator
  unfolding sort_names
  iterator m =
      let cookies = get_all set_cookie m in
      record { keys = sort_names (map lowercase (keys m) ++ copies cookies); cookies = cookies }

  -- What an answer of `next_value` is: an item and the iterator after it, or the end.
  abbrev pub next_cookie : List Text → List Text → Option ((Text × Text) × HeadersIterator)
  next_cookie ks [] = none
  next_cookie ks (v ∷ vs) = some ((set_cookie, v), record { keys = ks; cookies = vs })

  abbrev pub next_header :
      Text → List Text → List Text → Option Header → Option ((Text × Text) × HeadersIterator)
  next_header k ks cs none = none
  next_header k ks cs (some v) = some ((k, display v), record { keys = ks; cookies = cs })

  unfoldable pub next_value : Map → List Text → List Text → Option ((Text × Text) × HeadersIterator)
  unfolding same get_header display
  next_value m [] cs = none
  next_value m (k ∷ ks) cs =
      if same k set_cookie then next_cookie ks cs else next_header k ks cs (get_header h k m)

  -- The items that a loop of a script gets: it stops at the first `None`. The fuel is the number
  -- of keys, since each call takes one.
  abbrev pub and_then :
      (HeadersIterator → List (Text × Text))
      → Option ((Text × Text) × HeadersIterator)
      → List (Text × Text)
  and_then k none = []
  and_then k (some (item, it)) = item ∷ k it

  unfoldable pub collect : ℕ → Map → HeadersIterator → List (Text × Text)
  unfolding next_value
  collect zero m it = []
  collect (suc n) m it = and_then (collect n m) (next_value m it.keys it.cookies)

  -- A name that is not `set-cookie` and has the value `v`.
  pub record Plain (m : Map) (k : Text) (v : Header) : Type 0 where
    pub other_name : same k set_cookie ≡ false
    pub value : get_header h k m ≡ some v

  abbrev pub items : List (Text × Header) → List (Text × Text)
  items [] = []
  items ((k, v) ∷ rest) = (k, display v) ∷ items rest

  abbrev pub names : List (Text × Header) → List Text
  names [] = []
  names ((k, v) ∷ rest) = k ∷ names rest

  abbrev pub cookie_items : List Text → List (Text × Text)
  cookie_items [] = []
  cookie_items (v ∷ vs) = (set_cookie, v) ∷ cookie_items vs

  collect_cookies :
      (m : Map) (cs after : List Text)
      → collect
          (length (copies cs ++ set_cookie ∷ after))
          m
          (record { keys = copies cs ++ set_cookie ∷ after; cookies = cs })
        ≡ cookie_items cs
  unfolding collect next_value
  collect_cookies m [] after = refl
  collect_cookies m (v ∷ cs) after = ap (◌∷◌ (set_cookie, v)) (collect_cookies m cs after)

  collect-Plain :
      (m : Map) (before : List (Text × Header)) (cs after : List Text)
      → All (λ p. Plain m p.0 p.1) before
      → collect
          (length (names before ++ (copies cs ++ set_cookie ∷ after)))
          m
          (record { keys = names before ++ (copies cs ++ set_cookie ∷ after); cookies = cs })
        ≡ items before ++ cookie_items cs
  unfolding collect next_value
  collect-Plain m [] cs after p = collect_cookies m cs after
  collect-Plain m ((k, v) ∷ before) cs after p =
      rw (p.0.other_name, p.0.value) (ap (◌∷◌ (k, display v)) (collect-Plain m before cs after p.1))

  -- If the sorted keys of the iterator are names other than set-cookie that have values, then
  -- set-cookie once for each cookie and once more, and then others, the items are those of the
  -- first names and one for each cookie: nothing after the cookies is given.
  pub collect-iterator_stops :
      (m : Map) (before : List (Text × Header)) (after : List Text)
      → (iterator m).keys ≡ names before ++ (copies (get_all set_cookie m) ++ set_cookie ∷ after)
      → All (λ p. Plain m p.0 p.1) before
      → collect (length (iterator m).keys) m (iterator m)
        ≡ items before ++ cookie_items (get_all set_cookie m)
  unfolding iterator
  collect-iterator_stops m before after e p =
      ap (λ ks. collect (length ks) m (record { keys = ks; cookies = get_all set_cookie m })) e
      ∙ collect-Plain m before (get_all set_cookie m) after p
