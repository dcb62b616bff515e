-- ===== src/EventLoop/Timers/Registration.antt =====
-- What `setTimeout`, `setInterval` and their clearing do to the queue.
use spiderfire.Prelude.{
  ℕ, ◌+◌, ◌%◌, ◌^◌, ◌<◌, ◌≤◌, ◌≡◌, refl, Bool, Option, none, some, List, arith, ap, subst, ◌==◌,
  if◌then◌else◌,
}
use spiderfire.Prelude.Int.{ℤ, pos, negsuc}
use spiderfire.EventLoop.Macrotask.{TimerMacrotask, timer, remaining, new_timer}
use spiderfire.EventLoop.MacrotaskQueue.{MacrotaskQueue, get, enqueue, remove}
use spiderfire.EventLoop.MacrotaskQueue.Ids.{IsValid, bound, enqueue_fresh, remove-enqueue}
use spiderfire.EventLoop.World.{World}
use spiderfire.EventLoop.Macrotasks.{task_at}
use spiderfire.EventLoop.Timers.{
  Result, ok, uninitialised, set_timer, clear_timer, minimum_delay, clamp_duration, as_u64,
}

clamp_duration-le :
    (n : ℕ) (d : Option ℤ) → minimum_delay n ≤ as_u64 (clamp_duration (minimum_delay n) d)
unfolding minimum_delay clamp_duration
clamp_duration-le n none = ground arith
clamp_duration-le n (some (pos t)) = ground arith
clamp_duration-le n (some (negsuc t)) = ground arith

-- On a valid queue whose id counter has not wrapped, a timer gets an id that was not in the map,
-- under which its function, arguments and kind are found; its delay is at least the minimum for
-- the nesting level and passes before the timer is due; no other id changes.
pub set_timer_lem :
    (callback : ℕ) (duration : Option ℤ) (arguments : List ℕ) (repeat : Bool) (w : World)
    (q : MacrotaskQueue)
    → w.macrotasks ≡ some q
    → IsValid q
    → bound q.latest < 2 ^ 32
    → (id : ℕ) × (t : TimerMacrotask) × ((set_timer callback duration arguments repeat w).0 ≡ ok id)
      × (get id q.entries ≡ none)
      × ((j : ℕ)
          → task_at j (set_timer callback duration arguments repeat w).1
            ≡ (if id == j then some (timer t) else get j q.entries))
      × (t.callback ≡ callback)
      × (t.arguments ≡ arguments)
      × (t.repeat ≡ repeat)
      × (minimum_delay q.nesting ≤ t.duration)
      × (remaining w.now (timer t) ≡ t.duration)
unfolding set_timer new_timer remaining
set_timer_lem callback duration arguments repeat w q h v b =
    let d = as_u64 (clamp_duration (minimum_delay q.nesting) duration) in
    let t0 = new_timer w.now callback arguments repeat d in
    let n = (q.nesting + 1) % 2 ^ 8 in
    let fresh = enqueue_fresh w.now (timer t0) q v b in
    (
      (enqueue w.now (timer t0) none q).0,
      record t0 { nesting = n },
      rw h,
      fresh.0,
      (λ j. rw h (fresh.1 j)),
      refl,
      refl,
      refl,
      clamp_duration-le q.nesting duration,
      omega arith,
    )

abbrev id_or : ℕ → Result ℕ → ℕ
id_or d (ok id) = id
id_or d uninitialised = d

-- On a valid queue whose id counter has not wrapped, clearing a timer that was just set gives back
-- the map that was there before.
pub clear_timer-set_timer :
    (callback : ℕ) (duration : Option ℤ) (arguments : List ℕ) (repeat : Bool) (w : World)
    (q : MacrotaskQueue) (id j : ℕ)
    → w.macrotasks ≡ some q
    → IsValid q
    → bound q.latest < 2 ^ 32
    → (set_timer callback duration arguments repeat w).0 ≡ ok id
    → task_at j (clear_timer (some id) (set_timer callback duration arguments repeat w).1).1
      ≡ get j q.entries
unfolding set_timer clear_timer
clear_timer-set_timer callback duration arguments repeat w q id j h v b r =
    let d = as_u64 (clamp_duration (minimum_delay q.nesting) duration) in
    let m = timer (new_timer w.now callback arguments repeat d) in
    let given : ok (enqueue w.now m none q).0 ≡ ok id = rw h at r in
    rw h (
      subst (λ k. get j (remove k (enqueue w.now m none q).1).entries ≡ get j q.entries)
        (ap (id_or 0) given) (remove-enqueue w.now m q j v b))
