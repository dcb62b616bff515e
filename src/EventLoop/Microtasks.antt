-- ===== src/EventLoop/Microtasks.antt =====
-- runtime/src/event_loop/microtasks.rs: the queue of promise jobs and `queueMicrotask` callbacks.
pub mod Draining
use spiderfire.Prelude.{
  ℕ, zero, suc, Bool, true, false, List, [], ◌∷◌, ◌++◌, Option, none, some, if◌then◌else◌,
}
use spiderfire.EventLoop.World.{
  World, Engine, Action, Outcome, ok, err, out_of_fuel, done, ◌>>◌, Microtask, MicrotaskQueue,
  promise, user,
}

unfoldable pub run : Engine → Microtask → Action
run e (promise job) = e.call job none []
run e (user callback) = e.call callback (some e.global) []

abbrev pub map_microtasks : (MicrotaskQueue → MicrotaskQueue) → World → World
map_microtasks f w = record w {
  microtasks = elim w.microtasks [ none ↦ none | some q ↦ some (f q) ];
}

-- `MicrotaskQueue::enqueue`; the engine is told that its job queue may hold something.
unfoldable pub enqueue : Microtask → World → World
enqueue m w = record (map_microtasks (λ q. record q { queue = q.queue ++ m ∷ [] }) w) {
  job_queue_empty = false;
}

abbrev pub queued : World → List Microtask
queued w = elim w.microtasks [ none ↦ [] | some q ↦ q.queue ]

abbrev pub is_draining : World → Bool
is_draining w = elim w.microtasks [ none ↦ false | some q ↦ q.draining ]

abbrev pub set_draining : Bool → World → World
set_draining b w = map_microtasks (λ q. record q { draining = b }) w

abbrev pub set_queue : List Microtask → World → World
set_queue r w = map_microtasks (λ q. record q { queue = r }) w

-- The `while let` loop: one unit of fuel for each microtask. A microtask may enqueue others.
unfoldable pub drain : Engine → ℕ → Action
unfolding run
drain e zero w = (out_of_fuel, w)
drain e (suc fuel) w = elim (queued w) [
  | [] ↦ (ok, w)
  | m ∷ rest ↦ (run e m >> drain e fuel) (set_queue rest w)
]

abbrev pub drained : World → World
drained w = record (set_draining false w) { job_queue_empty = true }

-- `MicrotaskQueue::run_jobs`
unfoldable pub run_jobs : Engine → ℕ → Action
unfolding drain
run_jobs e fuel w =
    if is_draining w
    then (ok, w)
    else (drain e fuel >> λ w'. (ok, drained w')) (set_draining true w)

-- `enqueue_promise_job`, the trap by which the engine hands over a promise job; a null job is not
-- enqueued.
unfoldable pub enqueue_promise_job : Option ℕ → World → World
unfolding enqueue
enqueue_promise_job none w = w
enqueue_promise_job (some job) w = enqueue (promise job) w
