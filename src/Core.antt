-- ===== src/Core.antt =====
-- src/lumina/core: the transaction kernel, the permission checker and the context TTLs.
pub mod StateMachine
pub mod Permissions
pub mod Ttl
