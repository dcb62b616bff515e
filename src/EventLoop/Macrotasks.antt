-- ===== src/EventLoop/Macrotasks.antt =====
-- runtime/src/event_loop/macrotasks.rs: running a macrotask, `Macrotask::run` and
-- `MacrotaskQueue::run_job`, on the shared state.
pub mod Jobs
use spiderfire.Prelude.{
  ℕ, Bool, true, false, List, [], ◌∷◌, Option, none, some, ◌==◌, if◌then◌else◌,
}
use spiderfire.EventLoop.Macrotask.{Macrotask, SignalCallback, signal, timer, user}
use spiderfire.EventLoop.Macrotask
use spiderfire.EventLoop.MacrotaskQueue.{MacrotaskQueue, get, insert, delete, find_next}
use spiderfire.EventLoop.World.{World, Engine, Action, ok, err, done, ◌>>◌}

-- `Sender::send_replace`: the channel now holds the error.
unfoldable pub send_replace : SignalCallback → World → World
send_replace c w = record w {
  channels = λ k. if k == c.channel then some c.error else w.channels k;
}

abbrev pub map_macrotasks : (MacrotaskQueue → MacrotaskQueue) → World → World
map_macrotasks f w = record w {
  macrotasks = elim w.macrotasks [ none ↦ none | some q ↦ some (f q) ];
}

abbrev pub put : ℕ → Macrotask → MacrotaskQueue → MacrotaskQueue
put id m q = record q { entries = insert id m q.entries }

abbrev pub drop_entry : ℕ → MacrotaskQueue → MacrotaskQueue
drop_entry id q = record q { entries = delete id q.entries }

-- The signal's callback is taken out of it before it is called.
unfoldable pub fire : ℕ → Macrotask → Option SignalCallback → World → World
unfolding send_replace insert
fire id taken none w = w
fire id taken (some c) w = send_replace c (map_macrotasks (put id taken) w)

-- `Macrotask::run` on the macrotask with the id `id`, which is in the map: a signal's callback is
-- called once, every other macrotask calls its function on the global object.
unfoldable pub run : Engine → ℕ → Macrotask → Action
unfolding fire
run e id (signal s) w = (ok, fire id (signal (record s { callback = none })) s.callback w)
run e id (timer t) w = e.call t.callback (some e.global) t.arguments w
run e id (user u) w = e.call u.callback (some e.global) [] w

-- The macrotask with the id, in the queue as it is now.
abbrev pub task_at : ℕ → World → Option Macrotask
task_at id w = elim w.macrotasks [ none ↦ none | some q ↦ get id q.entries ]

abbrev pub run_found : Engine → ℕ → Option Macrotask → Action
run_found e id none w = (ok, w)
run_found e id (some m) w = run e id m w

-- `remove`: a repeated timer is restarted in place, all else leaves the map.
abbrev pub settle : ℕ → ℕ → Macrotask → World → World
settle now id m w =
    let (leaves, m') = Macrotask.remove now m in
    if leaves then map_macrotasks (drop_entry id) w else map_macrotasks (put id m') w

abbrev pub finish : ℕ → Option Macrotask → World → World
finish id none w = w
finish id (some m) w = settle w.now id m w

abbrev pub run_next : Engine → Option ℕ → Action
run_next e none w = (ok, w)
run_next e (some id) w =
    (run_found e id (task_at id w) >> λ w'. (ok, finish id (task_at id w') w')) w

abbrev pub next_of : Option MacrotaskQueue → Option ℕ
next_of none = none
next_of (some q) = q.next

unfoldable pub run_job : Engine → Action
unfolding run
run_job e w =
    let w1 = map_macrotasks (find_next w.flags w.now) w in run_next e (next_of w1.macrotasks) w1
