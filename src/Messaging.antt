-- ===== src/Messaging.antt =====
-- src/messaging: the send queue and JID normalisation.
pub mod Queue
pub mod Jid
