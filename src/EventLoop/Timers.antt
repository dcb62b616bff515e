-- ===== src/EventLoop/Timers.antt =====
-- runtime/src/globals/timers.rs and microtasks.rs: the functions that scripts call.
pub mod Registration
use spiderfire.Prelude.{
  ℕ, ◌-◌, ◌^◌, Bool, true, false, List, Option, none, some, ltb, if◌then◌else◌,
}
use spiderfire.Prelude.Int.{ℤ, pos, negsuc, max_ℤ}
use spiderfire.EventLoop.Macrotask.{Macrotask, timer, user, new_timer, new_user}
use spiderfire.EventLoop.MacrotaskQueue.{MacrotaskQueue, enqueue, remove}
use spiderfire.EventLoop.World.{World, Microtask, MicrotaskQueue}
use spiderfire.EventLoop.World
use spiderfire.EventLoop.Microtasks

-- `Err("… Queue has not been initialised.")`
pub data Result {ℓ} (A : Type ℓ) : Type ℓ where
  ok : A → Result A
  uninitialised : Result A

-- `i32 as u64`
abbrev pub as_u64 : ℤ → ℕ
as_u64 (pos n) = n
as_u64 (negsuc n) = 2 ^ 64 - 1 - n

-- MINIMUM_DELAY and MINIMUM_DELAY_NESTED
unfoldable pub minimum_delay : ℕ → ℕ
minimum_delay nesting = if ltb 5 nesting then 4 else 1

unfoldable pub clamp_duration : ℕ → Option ℤ → ℤ
clamp_duration minimum none = pos minimum
clamp_duration minimum (some t) = max_ℤ t (pos minimum)

abbrev pub with_queue {ℓ} :
    {A : Type ℓ} → (MacrotaskQueue → A × MacrotaskQueue) → World → Result A × World
with_queue f w = elim w.macrotasks [
  | none ↦ (uninitialised, w)
  | some q ↦ (ok (f q).0, record w { macrotasks = some (f q).1 })
]

unfoldable pub set_timer : ℕ → Option ℤ → List ℕ → Bool → World → Result ℕ × World
unfolding minimum_delay clamp_duration enqueue new_timer
set_timer callback duration arguments repeat w =
    with_queue
      (λ q.
        let d = as_u64 (clamp_duration (minimum_delay q.nesting) duration) in
        enqueue w.now (timer (new_timer w.now callback arguments repeat d)) none q)
      w

unfoldable pub set_timeout : ℕ → Option ℤ → List ℕ → World → Result ℕ × World
unfolding set_timer
set_timeout callback duration arguments = set_timer callback duration arguments false

unfoldable pub set_interval : ℕ → Option ℤ → List ℕ → World → Result ℕ × World
unfolding set_timer
set_interval callback duration arguments = set_timer callback duration arguments true

-- `clearTimeout` and `clearInterval`
unfoldable pub clear_timer : Option ℕ → World → Result (Unit {0}) × World
unfolding remove
clear_timer none w = (ok tt, w)
clear_timer (some id) w = with_queue (λ q. (tt, remove id q)) w

unfoldable pub queue_macrotask : ℕ → World → Result (Unit {0}) × World
unfolding enqueue new_user
queue_macrotask callback w =
    with_queue (λ q. (tt, (enqueue w.now (user (new_user w.now callback)) none q).1)) w

unfoldable pub queue_microtask : ℕ → World → Result (Unit {0}) × World
unfolding Microtasks.enqueue
queue_microtask callback w = elim w.microtasks [
  | none ↦ (uninitialised, w)
  | some q ↦ (ok tt, Microtasks.enqueue (World.user callback) w)
]
