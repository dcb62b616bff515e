-- ===== src/EventLoop/MacrotaskQueue/Ids.antt =====
-- The ids of the macrotask queue: distinct, and new while the counter has not wrapped.
use spiderfire.Prelude.{
  ℕ, ◌+◌, ◌^◌, ◌≤◌, ◌<◌, ◌≡◌, refl, ◌≢◌, inl, inr, List, [], ◌∷◌, Option, none, some, arith, All,
  ◌==◌, if◌then◌else◌, Bool-cases, Option-cases, ==_iff, ==_refl, subst, ap, sym, ◌∙◌,
}
use spiderfire.EventLoop.Macrotask.{Macrotask}
use spiderfire.EventLoop.MacrotaskQueue.{
  MacrotaskQueue, get, insert, delete, enqueue, remove, set_next, offer, with_nesting, next_task,
  next_index, is_some,
}

abbrev pub Entries : Type 0
Entries = List (ℕ × Macrotask)

-- No entry has the id.
abbrev pub Absent : ℕ → Entries → Type 0
Absent id = All (λ e. e.0 ≢ id)

abbrev pub Distinct : Entries → Type 0
Distinct [] = Unit {0}
Distinct ((k, m) ∷ rest) = Absent k rest × Distinct rest

abbrev pub Below : ℕ → Entries → Type 0
Below n = All (λ e. e.0 < n)

-- The first id that the counter has not given.
abbrev pub bound : Option ℕ → ℕ
bound none = 0
bound (some l) = l + 1

pub record IsValid (q : MacrotaskQueue) : Type 0 where
  pub distinct : Distinct q.entries
  pub below : Below (bound q.latest) q.entries

pub get-Absent : (id : ℕ) (m : Entries) → Absent id m → get id m ≡ none
unfolding get
get-Absent id [] a = refl
get-Absent id ((k, t) ∷ rest) a = ground (arith, get-Absent id rest a.1)

pub Below-Absent : (n : ℕ) (m : Entries) → Below n m → Absent n m
Below-Absent n [] b = tt
Below-Absent n ((k, t) ∷ rest) b = ((λ e. omega arith), Below-Absent n rest b.1)

pub Below-mono : (n k : ℕ) (m : Entries) → n ≤ k → Below n m → Below k m
Below-mono n k [] h b = tt
Below-mono n k ((j, t) ∷ rest) h b = (omega arith, Below-mono n k rest h b.1)

pub get-insert :
    (id j : ℕ) (t : Macrotask) (m : Entries)
    → get j (insert id t m) ≡ (if id == j then some t else get j m)
unfolding get insert
get-insert id j t [] = refl
get-insert id j t ((k, o) ∷ rest) = ground (arith, get-insert id j t rest)

Absent-insert :
    (k id : ℕ) (t : Macrotask) (m : Entries) → k ≢ id → Absent k m → Absent k (insert id t m)
unfolding insert
Absent-insert k id t [] h a = ((λ e. h (omega arith)), tt)
Absent-insert k id t ((j, o) ∷ rest) h a = ground (arith, Absent-insert k id t rest h a.1)

Distinct-insert : (id : ℕ) (t : Macrotask) (m : Entries) → Distinct m → Distinct (insert id t m)
unfolding insert
Distinct-insert id t [] d = (tt, tt)
Distinct-insert id t ((k, o) ∷ rest) d = elim (Bool-cases (k == id)) [
  | inl hit ↦ rw hit d
  | inr miss ↦
      rw miss (Absent-insert k id t rest (λ e. ground arith) d.0, Distinct-insert id t rest d.1)
]

Below-insert :
    (n id : ℕ) (t : Macrotask) (m : Entries) → id < n → Below n m → Below n (insert id t m)
unfolding insert
Below-insert n id t [] h b = (h, tt)
Below-insert n id t ((k, o) ∷ rest) h b = ground (arith, Below-insert n id t rest h b.1)

All-delete {κ} : (P : ℕ × Macrotask → Type κ) (id : ℕ) (m : Entries) → All P m → All P (delete id m)
unfolding delete
All-delete P id [] a = tt
All-delete P id ((k, t) ∷ rest) a = elim (Bool-cases (k == id)) [
  | inl hit ↦ rw hit a.1
  | inr miss ↦ rw miss (a.0, All-delete P id rest a.1)
]

Distinct-delete : (id : ℕ) (m : Entries) → Distinct m → Distinct (delete id m)
unfolding delete
Distinct-delete id [] d = tt
Distinct-delete id ((k, t) ∷ rest) d = elim (Bool-cases (k == id)) [
  | inl hit ↦ rw hit d.1
  | inr miss ↦ rw miss (All-delete _ id rest d.0, Distinct-delete id rest d.1)
]

pub get-delete :
    (id j : ℕ) (m : Entries)
    → Distinct m
    → get j (delete id m) ≡ (if id == j then none else get j m)
unfolding get delete
get-delete id j [] d = ground arith
get-delete id j ((k, t) ∷ rest) d = ground (arith, get-delete id j rest d.1, get-Absent k rest d.0)

-- Offering the new task as the next one touches neither the map nor the counters.
pub offer-keeps :
    (now i : ℕ) (m : Macrotask) (o : Option Macrotask) (q : MacrotaskQueue)
    → ((offer now i m o q).entries ≡ q.entries)
      × ((offer now i m o q).nesting ≡ q.nesting)
      × ((offer now i m o q).latest ≡ q.latest)
unfolding set_next
offer-keeps now i m none q = ground arith
offer-keeps now i m (some n) q = ground arith

next_index-eq : (l : Option ℕ) → bound l < 2 ^ 32 → next_index l ≡ bound l
next_index-eq none h = refl
next_index-eq (some l) h = omega arith

-- On a valid queue whose id counter has not wrapped, a macrotask enqueued with no id gets an id
-- that no entry has; that id then leads to it, with its nesting level if it is a timer, and every
-- other id to what it led to before.
pub enqueue_fresh :
    (now : ℕ) (m : Macrotask) (q : MacrotaskQueue)
    → IsValid q
    → bound q.latest < 2 ^ 32
    → let (id, q') = enqueue now m none q in
      (get id q.entries ≡ none)
      × ((j : ℕ)
          → get j q'.entries
            ≡ (if id == j then some (with_nesting q.nesting m).1 else get j q.entries))
unfolding enqueue
enqueue_fresh now m q v h =
    let index = next_index q.latest in
    let o = next_task q.next q.entries in
    rw (next_index-eq q.latest h) (
      get-Absent (bound q.latest) q.entries (Below-Absent _ q.entries v.below),
      λ j.
          rw
            ((offer-keeps now (bound q.latest) m o q).0, (offer-keeps now (bound q.latest) m o q).1)
            (get-insert (bound q.latest) j (with_nesting q.nesting m).1 q.entries),
    )

-- Enqueueing with no id keeps a queue valid (distinct ids, all given by the counter) before the
-- counter wraps.
pub enqueue-IsValid :
    (now : ℕ) (m : Macrotask) (q : MacrotaskQueue)
    → IsValid q
    → bound q.latest < 2 ^ 32
    → IsValid (enqueue now m none q).1
unfolding enqueue
enqueue-IsValid now m q v h =
    let o = next_task q.next q.entries in
    let e = (offer-keeps now (next_index q.latest) m o q).0 in
    record {
      distinct = rw e (Distinct-insert (next_index q.latest) _ q.entries v.distinct);
      below =
          rw (e, next_index-eq q.latest h)
            (Below-insert _ (bound q.latest) _ q.entries (omega arith)
              (Below-mono (bound q.latest) _ q.entries (omega arith) v.below));
    }

-- Removing an id keeps a queue valid.
pub remove-IsValid : (id : ℕ) (q : MacrotaskQueue) → IsValid q → IsValid (remove id q)
unfolding remove
remove-IsValid id q v = elim (Bool-cases (is_some (get id q.entries))) [
  | inl hit ↦ rw hit (record {
    distinct = Distinct-delete id q.entries v.distinct;
    below = All-delete _ id q.entries v.below;
  })
  | inr miss ↦ rw miss v
]

-- On a valid queue, the id that was removed leads nowhere, and every other id to what it led to
-- before.
pub remove_lem :
    (id : ℕ) (q : MacrotaskQueue)
    → IsValid q
    → (get id (remove id q).entries ≡ none)
      × ((j : ℕ) → j ≢ id → get j (remove id q).entries ≡ get j q.entries)
unfolding remove
remove_lem id q v = elim (Option-cases (get id q.entries)) [
  | inl e ↦ rw e (e, λ j h. refl)
  | inr (t, e) ↦ rw e (
    ground (arith, get-delete id id q.entries v.distinct),
    λ j h. ground (arith, get-delete id j q.entries v.distinct),
  )
]

-- On a valid queue whose counter has not wrapped, removing a macrotask that was just enqueued
-- gives back the map that was there before.
pub remove-enqueue :
    (now : ℕ) (m : Macrotask) (q : MacrotaskQueue) (j : ℕ)
    → IsValid q
    → bound q.latest < 2 ^ 32
    → get j (remove (enqueue now m none q).0 (enqueue now m none q).1).entries ≡ get j q.entries
remove-enqueue now m q j v b =
    let id = (enqueue now m none q).0 in
    let (absent, found) = enqueue_fresh now m q v b in
    let (gone, others) = remove_lem id (enqueue now m none q).1 (enqueue-IsValid now m q v b) in
    elim (Bool-cases (id == j)) [
      | inl same ↦
          let e : id ≡ j = (==_iff id j).0 same in
          subst (λ k. get k (remove id (enqueue now m none q).1).entries ≡ get k q.entries) e
            (gone ∙ sym absent)
      | inr other ↦
          others j (λ p. cc (other, p, ==_refl id))
          ∙ found j
          ∙ ap (λ c. if c then some (with_nesting q.nesting m).1 else get j q.entries) other
    ]
