-- ===== src/EventLoop/AbortSignals.antt =====
-- runtime/src/globals/abort.rs: `AbortSignal` and `AbortController`. A watch channel and a shared
-- flag are known by their addresses; an operation that makes one gets a new address. Times are in
-- milliseconds.
pub mod Timeouts
use spiderfire.Prelude.{ℕ, Bool, true, false, Option, none, some, ◌==◌, if◌then◌else◌}
use spiderfire.EventLoop.Macrotask.{Macrotask, SignalCallback, new_signal}
use spiderfire.EventLoop.Macrotask
use spiderfire.EventLoop.MacrotaskQueue.{MacrotaskQueue, enqueue, is_some}
use spiderfire.EventLoop.World.{World}
use spiderfire.EventLoop.Macrotasks.{send_replace}

pub data Signal : Type 0 where
  never : Signal
  abort : ℕ → Signal
  receiver : ℕ → Signal
  timeout : ℕ → ℕ → Signal

-- `AbortSignal::get_reason`, `get_aborted` and `throw_if_aborted`, which gives what it throws.
unfoldable pub get_reason : Signal → World → Option ℕ
get_reason never w = none
get_reason (abort reason) w = some reason
get_reason (receiver channel) w = w.channels channel
get_reason (timeout channel flag) w = w.channels channel

unfoldable pub get_aborted : Signal → World → Bool
unfolding get_reason
get_aborted s w = is_some (get_reason s w)

unfoldable pub throw_if_aborted : Signal → World → Option ℕ
unfolding get_reason
throw_if_aborted s w = get_reason s w

-- A poll of the receiver: `changed` is the channel's value after a change was seen, none while none
-- is seen.
abbrev pub poll_receiver : Option ℕ → Option (Option ℕ) → Option ℕ
poll_receiver (some reason) changed = some reason
poll_receiver none none = none
poll_receiver none (some value) = value

-- `SignalFuture::poll`: the reason if the future is ready.
unfoldable pub poll : Signal → Option (Option ℕ) → World → Option ℕ
poll never changed w = none
poll (abort reason) changed w = some reason
poll (receiver channel) changed w = poll_receiver (w.channels channel) changed
poll (timeout channel flag) changed w = poll_receiver (w.channels channel) changed

abbrev pub raise : ℕ → World → World
raise flag w = record w { flags = λ k. if k == flag then true else w.flags k }

-- The drop of a `SignalFuture`: a timeout that has not fired is terminated.
unfoldable pub drop_future : Signal → World → World
drop_future never w = w
drop_future (abort reason) w = w
drop_future (receiver channel) w = w
drop_future (timeout channel flag) w = elim (w.channels channel) [
  | none ↦ raise flag w
  | some reason ↦ w
]

abbrev pub new_channel : ℕ → World → World
new_channel channel w = record w { channels = λ k. if k == channel then none else w.channels k }

abbrev pub new_flag : ℕ → World → World
new_flag flag w = record w { flags = λ k. if k == flag then false else w.flags k }

-- `AbortController::constructor` with its signal, and `AbortController::abort`.
unfoldable pub new_controller : ℕ → World → Signal × World
new_controller channel w = (receiver channel, new_channel channel w)

unfoldable pub abort_controller : ℕ → ℕ → World → World
unfolding send_replace
abort_controller channel reason w = send_replace (record { channel = channel; error = reason }) w

abbrev pub timeout_task : ℕ → ℕ → ℕ → ℕ → ℕ → Macrotask
timeout_task now channel flag error time =
    Macrotask.signal (new_signal now (record { channel = channel; error = error }) flag time)

-- `AbortSignal::timeout`: no signal if there is no queue.
unfoldable pub new_timeout : ℕ → ℕ → ℕ → ℕ → World → Option Signal × World
unfolding enqueue new_signal
new_timeout channel flag error time w =
    let w1 = new_flag flag (new_channel channel w) in
    elim w.macrotasks [
      | none ↦ (none, w1)
      | some q ↦ (
        some (timeout channel flag),
        record w1 {
          macrotasks = some (enqueue w.now (timeout_task w.now channel flag error time) none q).1;
        },
      )
    ]
