-- ===== src/Streams.antt =====
-- runtime/src/globals/streams/readable/: readable streams, their controllers and their readers.
pub mod Memory
pub mod Descriptor
pub mod System
pub mod Stream
pub mod Common
pub mod Default
pub mod ByteStream
pub mod Respond
pub mod Controller
pub mod Reader
pub mod Readable
pub mod Queueing
pub mod Locking
pub mod Ending
mod Examples
