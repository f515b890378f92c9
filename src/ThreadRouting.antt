-- ===== src/ThreadRouting.antt =====
-- src/lumina/thread_routing: the choice of a thread for an incoming turn.
pub mod Router
pub mod Policy
