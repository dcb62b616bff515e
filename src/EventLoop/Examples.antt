-- ===== src/EventLoop/Examples.antt =====
-- The event loop on small inputs: a world with one task of each kind, and what the theorems say of it.
use spiderfire.Prelude.{
  ℕ, ◌<◌, ◌^◌, ◌≡◌, refl, ◌≢◌, arith, Bool, true, false, List, [], ◌∷◌, Option, none, some, length,
  if◌then◌else◌, ◌==◌,
}
use spiderfire.Prelude.Int.{pos}
use spiderfire.EventLoop.Macrotask.{
  Macrotask, TimerMacrotask, timer, signal, user, terminate, remaining,
}
use spiderfire.EventLoop.MacrotaskQueue.{
  MacrotaskQueue, get, enqueue, remove, find_next, with_nesting,
}
use spiderfire.EventLoop.MacrotaskQueue.Ids.{IsValid, bound, enqueue_fresh}
use spiderfire.EventLoop.World.{
  World, Engine, Outcome, ok, err, out_of_fuel, Joined, fulfilled, Microtask,
}
use spiderfire.EventLoop.World
use spiderfire.EventLoop.Macrotasks.{task_at, run_job}
use spiderfire.EventLoop.Macrotasks
use spiderfire.EventLoop.Macrotasks.Jobs.{Turn, runs, run_job-Turn, runs-ok, run_job-err, chosen}
use spiderfire.EventLoop.Microtasks
use spiderfire.EventLoop.Microtasks.{queued, is_draining, set_queue, set_draining, run_jobs, drain}
use spiderfire.EventLoop.Microtasks.Draining.{
  KeepsDraining, Calm, run_jobs-ok, run_jobs_total, run_jobs-err,
}
use spiderfire.EventLoop.Futures.{collect, run_futures}
use spiderfire.EventLoop.MacrotaskQueue
use spiderfire.EventLoop.Macrotask
use spiderfire.EventLoop.Futures.Settling.{Gathered, collect-Gathered}
use spiderfire.EventLoop.Poll.{is_empty, run_event_loop}
use spiderfire.EventLoop.Poll.Completion.{told, Ended, run_event_loop-idle, run_event_loop-ok}
use spiderfire.EventLoop.Timers.{set_timer, clear_timer, minimum_delay}
use spiderfire.EventLoop.Timers
use spiderfire.EventLoop.AbortSignals.{timeout, get_reason, new_timeout, drop_future}
use spiderfire.EventLoop.AbortSignals.Timeouts.{new_timeout-run}

-- The function 13 throws, every other returns and changes nothing; every task has finished.
abbrev call : ℕ → Option ℕ → List ℕ → World → Outcome × World
call f this arguments w = if f == 13 then (err (some 1), w) else (ok, w)

abbrev poll_next : World → List ℕ → Option (Joined × List ℕ)
poll_next w [] = none
poll_next w (x ∷ xs) = some (fulfilled x x, xs)

poll_next_shrinks :
    (w : World) (q : List ℕ) {j : Joined} {r : List ℕ}
    → poll_next w q ≡ some (j, r)
    → length r < length q
poll_next_shrinks w [] h = ground (arith, h)
poll_next_shrinks w (x ∷ xs) h = ground (arith, h)

abbrev engine : Engine
engine = record {
  call = call;
  global = 0;
  poll_next = poll_next;
  poll_next_shrinks = poll_next_shrinks;
  resolve = λ p v w. (true, w);
  reject = λ p v w. (true, w);
  exception = λ w. 1;
  throw = λ w. w;
}

-- A repeated timer that is due at 10, and the signal of a timeout that was cancelled.
abbrev interval : TimerMacrotask
interval = record {
  callback = 5;
  arguments = 7 ∷ [];
  repeat = true;
  scheduled = 2;
  duration = 4;
  nesting = 1;
}

abbrev cancelled : Macrotask
cancelled =
    signal (record {
      callback = some (record { channel = 3; error = 9 });
      terminate = 8;
      scheduled = 50;
    })

abbrev queue : MacrotaskQueue
queue = record {
  entries = (0, timer interval) ∷ (1, cancelled) ∷ [];
  nesting = 1;
  next = some 0;
  latest = some 1;
}

abbrev flags : ℕ → Bool
flags k = k == 8

queue-IsValid : IsValid queue
queue-IsValid = record {
  distinct = (((λ e. omega (arith, e)), tt), (tt, tt));
  below = (omega arith, (omega arith, tt));
}

abbrev task : Macrotask
task = timer (record interval { callback = 13 })

abbrev world : World
world = record {
  futures = some (4 ∷ []);
  microtasks = some (record { queue = World.user 6 ∷ []; draining = false });
  macrotasks = some queue;
  unhandled_rejections = 21 ∷ [];
  now = 10;
  flags = flags;
  channels = λ k. none;
  job_queue_empty = false;
  reported = [];
}

bound_small : bound queue.latest < 2 ^ 32
bound_small = omega arith

enqueue_fresh_example :
    (get (enqueue 10 task none queue).0 queue.entries ≡ none)
    × ((j : ℕ)
        → get j (enqueue 10 task none queue).1.entries ≡ (
            if (enqueue 10 task none queue).0 == j
            then some (with_nesting 1 task).1
            else get j queue.entries))
enqueue_fresh_example = enqueue_fresh 10 task queue queue-IsValid bound_small

run_job-Turn_example : Turn engine world queue
run_job-Turn_example = run_job-Turn engine world queue refl queue-IsValid

run-interval : Macrotasks.run engine 0 (timer interval) world ≡ (ok, world)
unfolding Macrotasks.run
run-interval = refl

run_throwing : Macrotasks.run engine 0 task world ≡ (err (some 1), world)
unfolding Macrotasks.run
run_throwing = refl

runs-ok_example :
    ((runs engine 0 (timer interval) world).0 ≡ ok)
    × (task_at 0 (runs engine 0 (timer interval) world).1
        ≡ some (timer (record interval { scheduled = 10 })))
unfolding get
runs-ok_example =
    runs-ok engine 0 0 (timer interval) world world queue run-interval refl queue-IsValid.distinct

-- A timer that throws when it is due.
abbrev throwing_queue : MacrotaskQueue
throwing_queue = record queue { entries = (0, task) ∷ [] }

throwing_queue-IsValid : IsValid throwing_queue
throwing_queue-IsValid = record { distinct = (tt, tt); below = (omega arith, tt) }

abbrev throwing_world : World
throwing_world = record world { macrotasks = some throwing_queue }

run_job-throwing : run_job engine throwing_world ≡ (err (some 1), chosen throwing_world)
unfolding run_job Macrotasks.run find_next get
run_job-throwing = refl

run_job-err_example :
    (id : ℕ) × (m : Macrotask) × (get id throwing_queue.entries ≡ some m)
    × (remaining throwing_world.now m ≡ 0)
    × (terminate throwing_world.flags m ≡ false)
    × (Macrotasks.run engine id m (chosen throwing_world) ≡ (err (some 1), chosen throwing_world))
run_job-err_example =
    run_job-err engine throwing_world (chosen throwing_world) throwing_queue (some 1) refl
      throwing_queue-IsValid run_job-throwing

abbrev drained_world : World
drained_world = record world {
  microtasks = some (record { queue = []; draining = false });
  job_queue_empty = true;
}

run_jobs-world : run_jobs engine 5 world ≡ (ok, drained_world)
unfolding run_jobs
run_jobs-world = refl

run_jobs-ok_example : (queued drained_world ≡ []) × (is_draining drained_world ≡ false)
run_jobs-ok_example = run_jobs-ok engine 5 world drained_world refl run_jobs-world

-- No microtask of this engine changes the world.
run_microtask : (w : World) (m : Microtask) → (Microtasks.run engine m w).1 ≡ w
unfolding Microtasks.run
run_microtask w (World.promise f) = ground arith
run_microtask w (World.user f) = ground arith

-- An engine whose functions all return.
abbrev calm_engine : Engine
calm_engine = record engine { call = λ f this arguments w. (ok, w) }

calm_microtask : (w : World) (m : Microtask) → Microtasks.run calm_engine m w ≡ (ok, w)
unfolding Microtasks.run
calm_microtask w (World.promise f) = refl
calm_microtask w (World.user f) = refl

abbrev measure : World → ℕ
measure w = length (queued w)

fewer :
    (w : World) (m : Microtask) (rest : List Microtask)
    → queued w ≡ m ∷ rest
    → measure (set_queue rest w) < measure w
fewer w m rest h = ground (arith, h)

calm : Calm calm_engine (λ w. Unit) measure
calm w m rest q p = (set_queue rest w, calm_microtask (set_queue rest w) m, (tt, fewer w m rest q))

run_jobs_total_example :
    (w' : World) × (run_jobs calm_engine 5 world ≡ (ok, w'))
    × ((queued w' ≡ []) × (is_draining w' ≡ false))
run_jobs_total_example =
    run_jobs_total calm_engine (λ w. Unit) measure calm 5 world refl tt (omega arith)

keeps : KeepsDraining engine
keeps w m = rw (run_microtask w m)

abbrev throwing : World
throwing = record world {
  microtasks = some (record { queue = World.user 13 ∷ World.user 6 ∷ []; draining = false });
}

abbrev stopped : World
stopped = record world { microtasks = some (record { queue = World.user 6 ∷ []; draining = true }) }

run_jobs-throwing : run_jobs engine 5 throwing ≡ (err (some 1), stopped)
unfolding run_jobs
run_jobs-throwing = refl

run_jobs-err_example :
    (is_draining stopped ≡ true) × ((later : ℕ) → run_jobs engine later stopped ≡ (ok, stopped))
run_jobs-err_example =
    run_jobs-err engine keeps 5 throwing stopped (some 1) refl (λ p. cc p) run_jobs-throwing

collect_all : (collect engine world 2 (4 ∷ []) []).0 ≡ some (fulfilled 4 4 ∷ [])
unfolding collect
collect_all = refl

collect-Gathered_example : Gathered engine world (4 ∷ []) [] (collect engine world 2 (4 ∷ []) [])
collect-Gathered_example = collect-Gathered engine world 2 (4 ∷ []) (omega arith)

abbrev idle : World
idle = record world { futures = none; microtasks = none; macrotasks = none }

abbrev one_timeout : World
one_timeout = record world {
  macrotasks =
      some (record queue { entries = (0, timer (record interval { repeat = false })) ∷ [] });
}

abbrev finished : World
finished = record drained_world {
  futures = some [];
  macrotasks = some (record queue { entries = []; next = some 0 });
  unhandled_rejections = [];
  reported = 21 ∷ [];
}

idle-is_empty : is_empty idle ≡ true
unfolding is_empty
idle-is_empty = refl

reported-is_empty : is_empty (told idle) ≡ true
unfolding is_empty
reported-is_empty = refl

run_event_loop-idle_example : run_event_loop engine (λ w. w) 1 2 idle ≡ (ok, told (told idle))
run_event_loop-idle_example =
    run_event_loop-idle engine (λ w. w) 1 idle idle-is_empty reported-is_empty

run_timeout : run_event_loop engine (λ w. w) 5 3 one_timeout ≡ (ok, finished)
unfolding run_event_loop run_futures run_jobs Macrotasks.run_job find_next get Macrotask.remove
    MacrotaskQueue.delete
run_timeout = refl

run_event_loop-ok_example : Ended engine (λ w. w) 5 false one_timeout finished
run_event_loop-ok_example = run_event_loop-ok engine (λ w. w) 5 3 one_timeout finished run_timeout

set_timer_two : (set_timer 5 (some (pos 20)) [] false world).0 ≡ Timers.ok 2
unfolding set_timer
set_timer_two = refl

abbrev timed_out : World
timed_out = (new_timeout 30 31 32 100 world).1

new_timeout-run_example :
    ((new_timeout 30 31 32 100 world).0 ≡ some (timeout 30 31))
    × (get_reason (timeout 30 31) timed_out ≡ none)
    × ((id : ℕ) × (m : Macrotask) × (get id queue.entries ≡ none)
        × (task_at id timed_out ≡ some m)
        × ((j : ℕ) → id ≢ j → task_at j timed_out ≡ task_at j world)
        × (get_reason (timeout 30 31) (Macrotasks.run engine id m timed_out).1 ≡ some 32)
        × (terminate (drop_future (timeout 30 31) timed_out).flags m ≡ true))
new_timeout-run_example =
    new_timeout-run engine 30 31 32 100 world queue refl queue-IsValid bound_small
