-- ===== src/EventLoop/Macrotasks/Jobs.antt =====
-- What one turn of the macrotask queue does: `run_job` on every branch.
use spiderfire.Prelude.{
  ℕ, ◌<◌, ◌≡◌, refl, ◌⊎◌, inl, inr, false, Option, none, some, arith, ap, sym, ◌∙◌, ◌==◌,
  if◌then◌else◌, All,
}
use spiderfire.EventLoop.Macrotask.{Macrotask, signal, timer, user, remaining, terminate}
use spiderfire.EventLoop.Macrotask
use spiderfire.EventLoop.MacrotaskQueue.{MacrotaskQueue, get, find_next}
use spiderfire.EventLoop.MacrotaskQueue.Ids.{IsValid, Distinct, get-insert, get-delete}
use spiderfire.EventLoop.MacrotaskQueue.Ready.{Chosen, find_next-Chosen, find_next-get}
use spiderfire.EventLoop.World.{World, Engine, Outcome, ok, err, out_of_fuel, after, ◌>>◌}
use spiderfire.EventLoop.Macrotasks.{
  run, run_job, task_at, finish, run_next, map_macrotasks, settle, run_found, next_of, drop_entry,
  put,
}

-- The queue after `find_next`, which `run_job` calls first.
abbrev pub chosen : World → World
chosen w = map_macrotasks (find_next w.flags w.now) w

-- What becomes of a macrotask that has run: a repeated timer starts again, all else is gone.
abbrev pub restarted : ℕ → Option Macrotask → Option Macrotask
restarted now none = none
restarted now (some (signal s)) = none
restarted now (some (user u)) = none
restarted now (some (timer t)) =
    if t.repeat then some (timer (record t { scheduled = now })) else none

module _ (id j : ℕ) (w : World) (q : MacrotaskQueue) where
  -- Dropping the entry, and putting another in its place.
  task_at-drop :
      w.macrotasks ≡ some q
      → Distinct q.entries
      → task_at j (map_macrotasks (drop_entry id) w) ≡ (if id == j then none else get j q.entries)
  task_at-drop e d = rw e (get-delete id j q.entries d)

  task_at-put :
      (m : Macrotask)
      → w.macrotasks ≡ some q
      → task_at j (map_macrotasks (put id m) w) ≡ (if id == j then some m else get j q.entries)
  task_at-put m e = rw e (get-insert id j m q.entries)

  task_at-settle :
      (m : Macrotask)
      → w.macrotasks ≡ some q
      → Distinct q.entries
      → task_at j (settle w.now id m w)
        ≡ (if id == j then restarted w.now (some m) else get j q.entries)
  unfolding Macrotask.remove
  task_at-settle (signal s) e d = task_at-drop e d
  task_at-settle (user u) e d = task_at-drop e d
  task_at-settle (timer t) e d =
      ground (arith, task_at-put (timer (record t { scheduled = w.now })) e, task_at-drop e d)

  task_at-finish :
      (o : Option Macrotask)
      → get id q.entries ≡ o
      → w.macrotasks ≡ some q
      → Distinct q.entries
      → task_at j (finish id o w) ≡ (if id == j then restarted w.now o else get j q.entries)
  task_at-finish none g e d = rw e (ground (arith, g))
  task_at-finish (some m) g e d = task_at-settle m e d

  finish-get :
      w.macrotasks ≡ some q
      → Distinct q.entries
      → task_at j (finish id (task_at id w) w)
        ≡ (if id == j then restarted w.now (get id q.entries) else get j q.entries)
  finish-get e d = rw (at_id e) (task_at-finish (get id q.entries) refl e d)
    where
      at_id : w.macrotasks ≡ some q → task_at id w ≡ get id q.entries
      at_id h = rw h

-- Runs the entry and settles it, in the world that its call leaves.
abbrev pub runs : Engine → ℕ → Macrotask → World → Outcome × World
runs e id m = run e id m >> λ w'. (ok, finish id (task_at id w') w')

-- What a job does after its choice.
abbrev pub Turn : Engine → World → MacrotaskQueue → Type 0
Turn e w q =
    (All (λ t. 0 < remaining w.now t.1) (find_next w.flags w.now q).entries
      × (run_job e w ≡ (ok, chosen w)))
    ⊎ ((id : ℕ) × (m : Macrotask) × (get id q.entries ≡ some m)
        × (remaining w.now m ≡ 0)
        × (terminate w.flags m ≡ false)
        × (run_job e w ≡ runs e id m (chosen w)))

next-Turn :
    (e : Engine) (w : World) (q : MacrotaskQueue) (n : Option ℕ)
    → (find_next w.flags w.now q).next ≡ n
    → w.macrotasks ≡ some q
    → Distinct q.entries
    → Chosen w.flags w.now (find_next w.flags w.now q).entries n
    → Turn e w q
unfolding run_job
next-Turn e w q none en h d c = inl (c, rw (h, en))
next-Turn e w q (some id) en h d (m, g, r, t) =
    inr (id, m, still_there, r, t, ap (λ o. run_next e o w1) named ∙ ap after_found here)
  where
    w1 : World
    w1 = chosen w

    named : next_of w1.macrotasks ≡ some id
    named = rw h en

    after_found : Option Macrotask → Outcome × World
    after_found o = (run_found e id o >> λ w'. (ok, finish id (task_at id w') w')) w1

    here : task_at id w1 ≡ some m
    here = rw h g

    still_there : get id q.entries ≡ some m
    still_there = ground (arith, find_next-get w.flags w.now q id d)

-- On a valid queue a macrotask job runs nothing, when no entry that is kept is due; or it runs one
-- entry of the queue that is due and not terminated, and settles it if the run succeeds.
pub run_job-Turn :
    (e : Engine) (w : World) (q : MacrotaskQueue) → w.macrotasks ≡ some q → IsValid q → Turn e w q
run_job-Turn e w q h v =
    next-Turn e w q (find_next w.flags w.now q).next refl h v.distinct
      (find_next-Chosen w.flags w.now q v.distinct)

-- When the run of an entry succeeds and leaves a map with distinct ids, the entry, if it is still
-- there, is gone, or is a repeated timer that starts again now; no other entry changes.
pub runs-ok :
    (e : Engine) (id j : ℕ) (m : Macrotask) (w w' : World) (q : MacrotaskQueue)
    → run e id m w ≡ (ok, w')
    → w'.macrotasks ≡ some q
    → Distinct q.entries
    → ((runs e id m w).0 ≡ ok)
      × (task_at j (runs e id m w).1
          ≡ (if id == j then restarted w'.now (get id q.entries) else get j q.entries))
runs-ok e id j m w w' q r h d = rw r (refl, finish-get id j w' q h d)

runs-report :
    (e : Engine) (id : ℕ) (m : Macrotask) (r : Outcome × World) (w' : World) (report : Option ℕ)
    → after r (λ v. (ok, finish id (task_at id v) v)) ≡ (err report, w')
    → r ≡ (err report, w')
runs-report e id m (ok, v) w' report h = absurd (clash h)
  where
    clash : ◌≡◌ {A = Outcome × World} (ok, finish id (task_at id v) v) (err report, w') → ⊥
    clash p = cc (ap (λ x. x.0) p)
runs-report e id m (err x, v) w' report h = h
runs-report e id m (out_of_fuel, v) w' report h = h

-- When a macrotask job on a valid queue ends with an error, it ran one entry of the queue that is
-- due and not terminated, from the world after the choice of it, and the error and the world are
-- those of that run: nothing was removed or restarted after it.
pub run_job-err :
    (e : Engine) (w w' : World) (q : MacrotaskQueue) (report : Option ℕ)
    → w.macrotasks ≡ some q
    → IsValid q
    → run_job e w ≡ (err report, w')
    → (id : ℕ) × (m : Macrotask) × (get id q.entries ≡ some m)
      × (remaining w.now m ≡ 0)
      × (terminate w.flags m ≡ false)
      × (run e id m (chosen w) ≡ (err report, w'))
run_job-err e w w' q report h v r = by_turn (run_job-Turn e w q h v)
  where
    clash : {v : World} → ◌≡◌ {A = Outcome × World} (ok, v) (err report, w') → ⊥
    clash p = cc (ap (λ x. x.0) p)

    by_turn :
        Turn e w q
        → (id : ℕ) × (m : Macrotask) × (get id q.entries ≡ some m)
          × (remaining w.now m ≡ 0)
          × (terminate w.flags m ≡ false)
          × (run e id m (chosen w) ≡ (err report, w'))
    by_turn (inl (all, nothing_ran)) = absurd (clash (sym nothing_ran ∙ r))
    by_turn (inr (id, m, g, due, kept, ran)) =
        (id, m, g, due, kept, runs-report e id m (run e id m (chosen w)) w' report (sym ran ∙ r))
