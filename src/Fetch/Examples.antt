-- ===== src/Fetch/Examples.antt =====
-- Headers, requests and fetches on small inputs.
mod Maps
mod Fetches
mod Files
