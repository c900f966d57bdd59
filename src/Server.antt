-- ===== src/Server.antt =====
-- src/server: who is let in, what the live state holds, and the event stream.
pub mod Bearer
pub mod Live
pub mod Stream
mod Tests
