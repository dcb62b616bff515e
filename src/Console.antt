-- ===== src/Console.antt =====
-- runtime/src/globals/console/mod.rs. Values and their formatting are parameters.
pub mod Printing
pub mod Calls
pub mod Silence
pub mod Indents
pub mod Nesting
mod Examples
