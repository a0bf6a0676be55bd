-- ===== src/Api.antt =====
-- The API objects of apis/ that gwctl reads: their fields as records. Fields that none of the
-- modelled code reads (statuses, matches, timeouts, TLS, filter bodies other than mirrors) are
-- left out.
pub mod Meta
pub mod Route
pub mod Gateway
pub mod Grant
