-- ===== src/EventLoop/AbortSignals/Timeouts.antt =====
-- The signal of a timeout and its macrotask.
use spiderfire.Prelude.{
  ℕ, ◌<◌, ◌^◌, ◌≡◌, ◌≢◌, ◌==◌, false, arith, sym, refl, ap, ◌∙◌, true, Option, none, some, ==_refl,
  if◌then◌else◌,
}
use spiderfire.EventLoop.Macrotask.{Macrotask, new_signal, terminate}
use spiderfire.EventLoop.MacrotaskQueue.{MacrotaskQueue, enqueue, get}
use spiderfire.EventLoop.MacrotaskQueue.Ids.{IsValid, bound, enqueue_fresh}
use spiderfire.EventLoop.World.{World, Engine}
use spiderfire.EventLoop.Macrotasks.{run, task_at}
use spiderfire.EventLoop.AbortSignals.{
  Signal, timeout, get_reason, new_timeout, drop_future, timeout_task, raise, new_flag, new_channel,
}

-- The world after the timeout was made on the queue `q`.
abbrev pub timed : ℕ → ℕ → ℕ → ℕ → World → MacrotaskQueue → World
timed channel flag error time w q = record (new_flag flag (new_channel channel w)) {
  macrotasks = some (enqueue w.now (timeout_task w.now channel flag error time) none q).1;
}

new_timeout_lem :
    (channel flag error time : ℕ) (w : World) (q : MacrotaskQueue)
    → w.macrotasks ≡ some q
    → new_timeout channel flag error time w
      ≡ (some (timeout channel flag), timed channel flag error time w q)
unfolding new_timeout
new_timeout_lem channel flag error time w q h =
    ap {B = Option Signal × World}
      (elim [
        | none ↦ (none, new_flag flag (new_channel channel w))
        | some p ↦ (some (timeout channel flag), timed channel flag error time w p)
      ])
      h

reason_fresh :
    (channel flag error time : ℕ) (w : World) (q : MacrotaskQueue)
    → get_reason (timeout channel flag) (timed channel flag error time w q) ≡ none
unfolding get_reason
reason_fresh channel flag error time w q = rw (==_refl channel) refl

reason_fired :
    (e : Engine) (id channel flag error time now : ℕ) (w : World)
    → get_reason (timeout channel flag) (run e id (timeout_task now channel flag error time) w).1
      ≡ some error
unfolding get_reason run new_signal
reason_fired e id channel flag error time now w = rw (==_refl channel) refl

-- After the drop of its future the macrotask of a timeout that has not fired is terminated.
drop_future-terminate :
    (channel flag error time now : ℕ) (w : World)
    → w.channels channel ≡ none
    → terminate
        (drop_future (timeout channel flag) w).flags
        (timeout_task now channel flag error time)
      ≡ true
unfolding drop_future terminate new_signal
drop_future-terminate channel flag error time now w h =
    ap (λ x. terminate x.flags (timeout_task now channel flag error time))
      (ap {B = World} (elim [ none ↦ raise flag w | some reason ↦ w ]) h)
    ∙ ap (λ b. if b then true else w.flags flag) (==_refl flag)

-- With a valid macrotask queue whose id counter has not wrapped, AbortSignal.timeout gives a
-- signal that has no reason at first, and puts one macrotask into the queue, under an id that no
-- entry had, while every other id leads to what it led to before; the run of that macrotask in the
-- world after it gives the signal the error as its reason; and if its future is dropped in that
-- world, that macrotask is terminated.
pub new_timeout-run :
    (e : Engine) (channel flag error time : ℕ) (w : World) (q : MacrotaskQueue)
    → w.macrotasks ≡ some q
    → IsValid q
    → bound q.latest < 2 ^ 32
    → let (s, w') = new_timeout channel flag error time w in
      (s ≡ some (timeout channel flag))
      × (get_reason (timeout channel flag) w' ≡ none)
      × ((id : ℕ) × (m : Macrotask) × (get id q.entries ≡ none)
          × (task_at id w' ≡ some m)
          × ((j : ℕ) → id ≢ j → task_at j w' ≡ task_at j w)
          × (get_reason (timeout channel flag) (run e id m w').1 ≡ some error)
          × (terminate (drop_future (timeout channel flag) w').flags m ≡ true))
new_timeout-run e channel flag error time w q h v b =
    let m = timeout_task w.now channel flag error time in
    let id = (enqueue w.now m none q).0 in
    let (absent, found) = enqueue_fresh w.now m q v b in
    rw (new_timeout_lem channel flag error time w q h) (
      refl,
      reason_fresh channel flag error time w q,
      (
        id,
        m,
        absent,
        found id ∙ ap (λ c. if c then some m else get id q.entries) (==_refl id),
        λ j p.
            found j
            ∙ ap (λ c. if c then some m else get j q.entries) (differs id j p)
            ∙ sym (in_queue j),
        reason_fired e id channel flag error time w.now (timed channel flag error time w q),
        drop_future-terminate channel flag error time w.now (timed channel flag error time w q)
            (ap (λ b. if b then none else w.channels channel) (==_refl channel)),
      ),
    )
  where
    in_queue : (j : ℕ) → task_at j w ≡ get j q.entries
    in_queue j = rw h refl

    differs : (i j : ℕ) → i ≢ j → (i == j) ≡ false
    differs i j p = ground (arith, p)
