-- ===== src/Tests.antt =====
-- The properties at concrete inputs: a small office of accounts, and a world outside that answers.
mod Office
mod Accounts
mod Screening
mod Batches
mod Web
mod Pipeline
mod Corpus
