-- ===== src/EventLoop/World.antt =====
-- The state that the event loop (runtime/src/event_loop/mod.rs) shares with running scripts, and
-- what the runtime calls in SpiderMonkey and tokio. Objects, functions and values of the engine are
-- addresses. A script that is called may change every queue, so a call maps a world to a world.
use spiderfire.Prelude.{ℕ, ◌<◌, ◌≡◌, Bool, List, Option, some, length}
use spiderfire.EventLoop.MacrotaskQueue.{MacrotaskQueue}

-- runtime/src/event_loop/microtasks.rs
pub data Microtask : Type 0 where
  promise : ℕ → Microtask
  user : ℕ → Microtask

pub record MicrotaskQueue : Type 0 where
  pub queue : List Microtask
  pub draining : Bool

-- runtime/src/event_loop/mod.rs, with the clock, the shared `AtomicBool`s, the values of the watch
-- channels, what the engine was told of its job queue, and the promises reported on stderr.
pub record World : Type 0 where
  pub futures : Option (List ℕ)
  pub microtasks : Option MicrotaskQueue
  pub macrotasks : Option MacrotaskQueue
  pub unhandled_rejections : List ℕ
  pub now : ℕ
  pub flags : ℕ → Bool
  pub channels : ℕ → Option ℕ
  pub job_queue_empty : Bool
  pub reported : List ℕ

-- `Result<(), Option<ErrorReport>>`, and the end of the fuel of a loop.
pub data Outcome : Type 0 where
  ok : Outcome
  err : Option ℕ → Outcome
  out_of_fuel : Outcome

abbrev pub Action : Type 0
Action = World → Outcome × World

abbrev pub after : Outcome × World → Action → Outcome × World
after (ok, w) k = k w
after (err e, w) k = (err e, w)
after (out_of_fuel, w) k = (out_of_fuel, w)

-- The `?` operator: the rest runs only after `Ok`.
infixl 5 ◌>>◌
abbrev pub ◌>>◌ : Action → Action → Action
◌>>◌ m k w = after (m w) k

abbrev pub done : Action
done w = (ok, w)

-- What a joined task gives: the result of its future with the promise to settle, or a join error.
pub data Joined : Type 0 where
  fulfilled : ℕ → ℕ → Joined
  rejected : ℕ → ℕ → Joined
  panicked : Joined

-- SpiderMonkey and tokio. `call` is `Function::call` on a function, a `this` (`none` is the null
-- object, `some` the global) and arguments. `poll_next` is `FuturesUnordered::poll_next_unpin`: a
-- finished task and the tasks left, or none if no task has finished; a finished task leaves.
-- `resolve` and `reject` settle a promise and say whether that worked, `exception` is the report of
-- the pending exception, `throw` makes a join error the pending exception.
pub record Engine : Type 0 where
  pub call : ℕ → Option ℕ → List ℕ → Action
  pub global : ℕ
  pub poll_next : World → List ℕ → Option (Joined × List ℕ)
  pub poll_next_shrinks :
      (w : World) (q : List ℕ) {j : Joined} {r : List ℕ}
      → poll_next w q ≡ some (j, r)
      → length r < length q
  pub resolve : ℕ → ℕ → World → Bool × World
  pub reject : ℕ → ℕ → World → Bool × World
  pub exception : World → ℕ
  pub throw : World → World
