-- ===== src/EventLoop.antt =====
-- runtime/src/event_loop/: the queues of the runtime and the loop that polls them. The state that
-- the queues share with running scripts is in `World`.
pub mod Macrotask
pub mod MacrotaskQueue
pub mod World
pub mod Macrotasks
pub mod Microtasks
pub mod Futures
pub mod Rejections
pub mod Poll
pub mod Timers
pub mod AbortSignals
mod Examples
