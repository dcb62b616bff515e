-- ===== src/EventLoop/Poll.antt =====
-- runtime/src/event_loop/mod.rs: `EventLoop::poll_event_loop` and `run_event_loop`.
pub mod Completion
use spiderfire.Prelude.{
  ℕ, zero, suc, Bool, true, false, not, ◌&&◌, List, [], ◌∷◌, ◌++◌, Option, none, some,
  if◌then◌else◌, is_empty as empty_list,
}
use spiderfire.EventLoop.World.{
  World, Engine, Action, Outcome, ok, err, out_of_fuel, done, ◌>>◌, MicrotaskQueue,
}
use spiderfire.EventLoop.MacrotaskQueue
use spiderfire.EventLoop.MacrotaskQueue.{MacrotaskQueue}
use spiderfire.EventLoop.Futures.{run_futures}
use spiderfire.EventLoop.Microtasks.{run_jobs}
use spiderfire.EventLoop.Macrotasks.{run_job}

abbrev pub no_futures : Option (List ℕ) → Bool
no_futures none = true
no_futures (some q) = empty_list q

abbrev pub no_microtasks : Option MicrotaskQueue → Bool
no_microtasks none = true
no_microtasks (some q) = empty_list q.queue

abbrev pub no_macrotasks : Option MacrotaskQueue → Bool
no_macrotasks none = true
no_macrotasks (some q) = empty_list q.entries

unfoldable pub is_empty : World → Bool
is_empty w = no_microtasks w.microtasks && (no_futures w.futures && no_macrotasks w.macrotasks)

-- Every promise that is still unhandled is reported, first in first out, and forgotten.
unfoldable pub report_rejections : World → World
report_rejections w = record w {
  unhandled_rejections = [];
  reported = w.reported ++ w.unhandled_rejections;
}

-- The three queues in turn; `fuel` bounds the microtasks of one poll.
unfoldable pub run_tasks : Engine → ℕ → Action
run_tasks e fuel =
    (λ w. if no_futures w.futures then done w else run_futures e w)
    >> (λ w. if no_microtasks w.microtasks then done w else run_jobs e fuel w)
    >> (λ w. if no_macrotasks w.macrotasks then done w else run_job e w)

unfoldable pub run_queues : Engine → ℕ → Action
run_queues e fuel = run_tasks e fuel >> λ w. (ok, report_rejections w)

-- `ready` ends the loop with an outcome, `pending` wakes it again with the flag `complete`.
pub data Poll : Type 0 where
  ready : Outcome → World → Poll
  pending : Bool → World → Poll

abbrev pub conclude : Bool → Outcome × World → Poll
conclude complete (ok, w) = if is_empty w && complete then ready ok w else pending (is_empty w) w
conclude complete (err r, w) = ready (err r) w
conclude complete (out_of_fuel, w) = ready out_of_fuel w

unfoldable pub poll_event_loop : Engine → ℕ → Bool → World → Poll
unfolding is_empty run_queues run_tasks report_rejections
poll_event_loop e fuel complete w = conclude complete (run_queues e fuel w)

-- `poll_fn(…).await`, one unit of `polls` for each poll. Between two polls the clock goes on and
-- tasks of other threads finish: `wait` says how.
unfoldable pub poll_from : Engine → (World → World) → ℕ → ℕ → Bool → Action
unfolding poll_event_loop
poll_from e wait fuel zero complete w = (out_of_fuel, w)
poll_from e wait fuel (suc polls) complete w = elim (poll_event_loop e fuel complete w) [
  | ready o w' ↦ (o, w')
  | pending c w' ↦ poll_from e wait fuel polls c (wait w')
]

unfoldable pub run_event_loop : Engine → (World → World) → ℕ → ℕ → Action
unfolding poll_from
run_event_loop e wait fuel polls w = poll_from e wait fuel polls false w
