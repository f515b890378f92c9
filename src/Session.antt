-- ===== src/Session.antt =====
-- src/lumina/session: what a session remembers.
pub mod RingBuffer
