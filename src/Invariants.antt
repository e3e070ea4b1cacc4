-- ===== src/Invariants.antt =====
-- What every request keeps true of the database, for the services of users_service.py and
-- sessions.py.
pub mod LiveSessions
