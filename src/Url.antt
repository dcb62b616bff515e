-- ===== src/Url.antt =====
-- runtime/src/globals/url/: search parameters.
pub mod SearchParams
mod Examples
