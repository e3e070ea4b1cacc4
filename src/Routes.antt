-- ===== src/Routes.antt =====
-- apps/api/app/routes: the HTTP endpoints over the services, and auth/dependencies.py.
pub mod SignIn
pub mod Accounts
pub mod Replies
pub mod Screening
pub mod Reading
pub mod App
