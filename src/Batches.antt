-- ===== src/Batches.antt =====
-- apps/api/app/services/batches_service.py, in parts.
pub mod Parse
pub mod Service
pub mod Rows
pub mod Accounts
pub mod Created
pub mod Cancel
pub mod Returned
