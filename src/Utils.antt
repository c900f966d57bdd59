-- ===== src/Utils.antt =====
-- src/utils: the backoff, the random numbers and the bounded fan-out.
pub mod Random
pub mod Backoff
pub mod Concurrency
mod Tests
