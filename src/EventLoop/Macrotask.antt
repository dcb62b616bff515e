-- ===== src/EventLoop/Macrotask.antt =====
-- runtime/src/event_loop/macrotasks.rs: a single macrotask. Times are instants and durations in one
-- unit; `Instant - Instant` saturates at zero, as subtraction on ℕ does. `now` is the clock's reading.
use spiderfire.Prelude.{ℕ, ◌+◌, ◌-◌, Bool, true, false, not, List, Option, some, if◌then◌else◌}

-- The closure of a signal macrotask, which is always the one that `AbortSignal::timeout` makes:
-- it sends `error` into the watch channel `channel`.
pub record SignalCallback : Type 0 where
  pub channel : ℕ
  pub error : ℕ

-- `terminate` is the address of the shared `AtomicBool`.
pub record SignalMacrotask : Type 0 where
  pub callback : Option SignalCallback
  pub terminate : ℕ
  pub scheduled : ℕ

pub record TimerMacrotask : Type 0 where
  pub callback : ℕ
  pub arguments : List ℕ
  pub repeat : Bool
  pub scheduled : ℕ
  pub duration : ℕ
  pub nesting : ℕ

pub record UserMacrotask : Type 0 where
  pub callback : ℕ
  pub scheduled : ℕ

pub data Macrotask : Type 0 where
  signal : SignalMacrotask → Macrotask
  timer : TimerMacrotask → Macrotask
  user : UserMacrotask → Macrotask

unfoldable pub new_signal : ℕ → SignalCallback → ℕ → ℕ → SignalMacrotask
new_signal now callback terminate duration = record {
  callback = some callback;
  terminate = terminate;
  scheduled = now + duration;
}

unfoldable pub new_timer : ℕ → ℕ → List ℕ → Bool → ℕ → TimerMacrotask
new_timer now callback arguments repeat duration = record {
  callback = callback;
  arguments = arguments;
  repeat = repeat;
  scheduled = now;
  duration = duration;
  nesting = 0;
}

unfoldable pub new_user : ℕ → ℕ → UserMacrotask
new_user now callback = record { callback = callback; scheduled = now }

-- A repeated timer starts again from now; the result says whether it repeats.
unfoldable pub reset : ℕ → TimerMacrotask → Bool × TimerMacrotask
reset now t = if t.repeat then (true, record t { scheduled = now }) else (false, t)

-- Whether the macrotask leaves the queue after its run.
unfoldable pub remove : ℕ → Macrotask → Bool × Macrotask
unfolding reset
remove now (timer t) = let (again, t') = reset now t in (not again, timer t')
remove now (signal s) = (true, signal s)
remove now (user u) = (true, user u)

unfoldable pub terminate : (ℕ → Bool) → Macrotask → Bool
terminate flags (signal s) = flags s.terminate
terminate flags (timer t) = false
terminate flags (user u) = false

unfoldable pub remaining : ℕ → Macrotask → ℕ
remaining now (signal s) = s.scheduled - now
remaining now (timer t) = t.scheduled + t.duration - now
remaining now (user u) = u.scheduled - now
