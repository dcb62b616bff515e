-- ===== src/EventLoop/MacrotaskQueue/Ready.antt =====
-- The choice of the next macrotask by `find_next`.
use spiderfire.Prelude.{
  ℕ, ◌<◌, ◌≡◌, refl, ◌≢◌, inl, inr, Bool, false, [], ◌∷◌, Option, none, some, arith, All,
  Bool-cases, leb, if◌then◌else◌,
}
use spiderfire.EventLoop.Macrotask.{Macrotask, terminate, remaining}
use spiderfire.EventLoop.MacrotaskQueue.{MacrotaskQueue, get, find_next, scan, consider, id_of}
use spiderfire.EventLoop.MacrotaskQueue.Ids.{Entries, Absent, Distinct, IsValid, get-Absent, bound}

-- An entry that is terminated is as good as none.
abbrev pub not_terminated : (ℕ → Bool) → Option Macrotask → Option Macrotask
not_terminated flags none = none
not_terminated flags (some m) = if terminate flags m then none else some m

module _ (flags : ℕ → Bool) (now : ℕ) where
  -- What `find_next` promises of the entries that it keeps and of its choice.
  abbrev pub Chosen : Entries → Option ℕ → Type 0
  Chosen kept none = All (λ e. 0 < remaining now e.1) kept
  Chosen kept (some id) =
      (m : Macrotask) × (get id kept ≡ some m) × (remaining now m ≡ 0) × (terminate flags m ≡ false)

  -- Nothing comes before a choice with no time left.
  scan-found : (b : ℕ) (m : Entries) → (scan flags now m (some (b, 0))).1 ≡ some (b, 0)
  unfolding scan
  scan-found b [] = refl
  scan-found b ((k, t) ∷ rest) = ground (arith, scan-found b rest)

  All-scan {κ} :
      (P : ℕ × Macrotask → Type κ) (m : Entries) (o : Option (ℕ × ℕ))
      → All P m
      → All P (scan flags now m o).0
  unfolding scan
  All-scan P [] o a = tt
  All-scan P ((k, t) ∷ rest) o a = elim (Bool-cases (terminate flags t)) [
    | inl gone ↦ rw gone (All-scan P rest _ a.1)
    | inr stays ↦ rw stays (a.0, All-scan P rest _ a.1)
  ]

  All-scan-get :
      (id : ℕ) (m : Entries) (o : Option (ℕ × ℕ)) → Absent id m → Absent id (scan flags now m o).0
  All-scan-get id m o a = All-scan (λ e. e.0 ≢ id) m o a

  -- The scan keeps the keys distinct.
  pub Distinct-scan :
      (m : Entries) (o : Option (ℕ × ℕ)) → Distinct m → Distinct (scan flags now m o).0
  unfolding scan
  Distinct-scan [] o d = tt
  Distinct-scan ((k, t) ∷ rest) o d = elim (Bool-cases (terminate flags t)) [
    | inl gone ↦ rw gone (Distinct-scan rest _ d.1)
    | inr stays ↦ rw stays (All-scan-get k rest _ d.0, Distinct-scan rest _ d.1)
  ]

  Chosen-cons :
      (k : ℕ) (t : Macrotask) (kept : Entries) (o : Option ℕ)
      → Absent k kept
      → 0 < remaining now t
      → Chosen kept o
      → Chosen ((k, t) ∷ kept) o
  unfolding get
  Chosen-cons k t kept none a h c = (h, c)
  Chosen-cons k t kept (some id) a h (m, e, r, f) = (m, ground (arith, get-Absent k kept a), r, f)

  scan-Chosen :
      (m : Entries)
      → Distinct m
      → Chosen (scan flags now m none).0 (id_of (scan flags now m none).1)
  unfolding scan get
  scan-Chosen [] d = tt
  scan-Chosen ((k, t) ∷ rest) d = elim (Bool-cases (terminate flags t)) [
    | inl gone ↦ rw gone (scan-Chosen rest d.1)
    | inr stays ↦ elim (Bool-cases (leb (remaining now t) 0)) [
      | inl ready ↦
          let zero_left : remaining now t ≡ 0 = ground arith in
          rw (stays, zero_left) (rw (scan-found k rest) (t, ground arith, zero_left, stays))
      | inr waits ↦
          rw (stays, waits)
            (Chosen-cons k t _ _ (All-scan-get k rest none d.0) (ground arith)
              (scan-Chosen rest d.1))
    ]
  ]

  -- On a map with distinct ids, in any order: find_next names an entry that is due and not
  -- terminated, or names none and no entry that it kept is due.
  pub find_next-Chosen :
      (q : MacrotaskQueue)
      → Distinct q.entries
      → Chosen (find_next flags now q).entries (find_next flags now q).next
  unfolding find_next
  find_next-Chosen q d = scan-Chosen q.entries d

  scan-get :
      (m : Entries) (o : Option (ℕ × ℕ)) (j : ℕ)
      → Distinct m
      → get j (scan flags now m o).0 ≡ not_terminated flags (get j m)
  unfolding scan get
  scan-get [] o j d = refl
  scan-get ((k, t) ∷ rest) o j d = elim (Bool-cases (terminate flags t)) [
    | inl gone ↦ rw gone (ground (arith, scan-get rest o j d.1, gone, get-Absent k rest d.0))
    | inr stays ↦ rw stays (ground (arith, scan-get rest (consider now k t o) j d.1, stays))
  ]

  -- On a map with distinct ids, find_next takes exactly the terminated entries out of the map.
  pub find_next-get :
      (q : MacrotaskQueue) (j : ℕ)
      → Distinct q.entries
      → get j (find_next flags now q).entries ≡ not_terminated flags (get j q.entries)
  unfolding find_next
  find_next-get q j d = scan-get q.entries none j d

  -- find_next keeps a queue valid.
  pub find_next-IsValid : (q : MacrotaskQueue) → IsValid q → IsValid (find_next flags now q)
  unfolding find_next
  find_next-IsValid q v = record {
    distinct = Distinct-scan q.entries none v.distinct;
    below = All-scan (λ e. e.0 < bound q.latest) q.entries none v.below;
  }
