-- ===== src/Core/Permissions.antt =====
-- src/lumina/core/permissions.py: the chmod-style permission checker.
pub mod Model
pub mod Check
pub mod Modes
pub mod Entries
pub mod Categories
pub mod Roles
pub mod Grants
pub mod Laws
mod Examples
