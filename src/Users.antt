-- ===== src/Users.antt =====
-- apps/api/app/services/users_service.py, in parts.
pub mod Email
pub mod Access
pub mod Tables
pub mod Lifecycle
pub mod Teams
pub mod Provision
pub mod Visibility
pub mod SignOut
pub mod Roster
pub mod Pages
pub mod Errors
