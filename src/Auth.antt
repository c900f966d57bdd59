-- ===== src/Auth.antt =====
-- src/auth: the names of the stored keys, the codec of the stored values, and the auth state.
pub mod Keys
pub mod Codec
pub mod State
mod Tests
