-- ===== src/EventLoop/Futures.antt =====
-- runtime/src/event_loop/future.rs: the queue of native tasks that settle promises.
pub mod Settling
use spiderfire.Prelude.{
  ℕ, zero, suc, Bool, true, false, List, [], ◌∷◌, ◌++◌, Option, none, some, if◌then◌else◌, length,
}
use spiderfire.EventLoop.World.{
  World, Engine, Action, Outcome, ok, err, out_of_fuel, Joined, fulfilled, rejected, panicked,
}

-- The first loop: the results collected, or none after a join error, and the tasks left. Every
-- round takes a task off the queue, so the queue's length and one more round suffice.
unfoldable pub collect : Engine → World → ℕ → List ℕ → List Joined → Option (List Joined) × List ℕ
collect e w zero q acc = (some acc, q)
collect e w (suc fuel) q acc = elim (e.poll_next w q) [
  | none ↦ (some acc, q)
  | some (panicked, r) ↦ (none, r)
  | some (fulfilled v p, r) ↦ collect e w fuel r (acc ++ fulfilled v p ∷ [])
  | some (rejected v p, r) ↦ collect e w fuel r (acc ++ rejected v p ∷ [])
]

unfoldable pub settle : Engine → Joined → World → Bool × World
settle e (fulfilled v p) w = e.resolve p v w
settle e (rejected v p) w = e.reject p v w
settle e panicked w = (true, w)

-- The second loop: it stops at a promise that cannot be settled.
unfoldable pub settle_all : Engine → List Joined → Action
unfolding settle
settle_all e [] w = (ok, w)
settle_all e (j ∷ rest) w =
    let (settled, w') = settle e j w in
    let more = settle_all e rest w' in if settled then more else (err (some (e.exception w')), w')

abbrev pub queued : World → List ℕ
queued w = elim w.futures [ none ↦ [] | some q ↦ q ]

abbrev pub continue : Engine → Option (List Joined) → Action
continue e none w = (err none, e.throw w)
continue e (some results) w = settle_all e results w

-- `FutureQueue::run_futures`
unfoldable pub run_futures : Engine → Action
unfolding collect settle_all
run_futures e w =
    let (results, left) = collect e w (suc (length (queued w))) (queued w) [] in
    continue e results (record w { futures = some left })
