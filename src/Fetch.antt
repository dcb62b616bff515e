-- ===== src/Fetch.antt =====
-- runtime/src/globals/fetch/: headers, requests, responses and the fetch itself.
pub mod Options
pub mod Headers
pub mod Web
pub mod Tests
pub mod Requests
pub mod Responses
pub mod Network
pub mod Tainting
pub mod Redirecting
pub mod Schemes
pub mod Main
pub mod Api
mod Examples
