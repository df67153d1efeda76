-- ===== src/Web.antt =====
-- apps/web: the browser client.
pub mod Sse
pub mod SyncEvents
pub mod Client
pub mod Download
mod Tests
