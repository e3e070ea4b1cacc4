-- ===== src/Lib.antt =====
-- Prompt Patrol screens students' answers: staff submit answers one by one or as a CSV batch, a
-- detector scores them, and each becomes a check with a verdict. This library models the back end:
-- the API's services (apps/api/app/services), its sign-in (apps/api/app/auth), its endpoints
-- (apps/api/app/routes, middleware.py) and the batch worker (apps/worker/worker/main.py); and the
-- passes of the data pipeline (apps/data-pipeline/app) that build the detector's training corpus.
--
-- How the parts interact. A request runs in one database session: `World.db` is the session's view,
-- `World.saved` what is committed, and `World.calls` the calls made of the outside world so far,
-- whose replies (`World.Outside`) are functions of those calls: the clock, random identifiers, Auth0,
-- the detector, S3 and SQS, and what a commit answers. An operation is an `Exec`: it returns a value
-- or raises an `Error`, with the world after it. Services call one another as the source does, the
-- routes call the services, and the worker calls the check service that the routes call.
--
-- Which file models which part:
--   Common, with Tests, Lists, Members and Repeats: shared names, Boolean tests, the queries on lists
--     of rows, membership, and lists without repeats.
--   Models: the tables of models/user.py, session.py, check.py and batch.py.
--   World: sessions, exceptions and the outside world; db.py `get_db` is `in_session`.
--   Auth0: auth/management.py. Aws: services/aws_clients.py.
--   Users: services/users_service.py, in Email (normalize_email), Access (who may see and manage
--     whom, sign-in), Tables (the statements that ride in another change), Lifecycle (_transition and
--     its callers), Teams (supervision links), Provision (_provision and its callers) and Roster
--     (list_users); Visibility, SignOut and Pages hold proofs.
--   Sessions: services/sessions.py and auth/session_state.py; Sessions/Laws and Sessions/Purge.
--   Checks: services/checks_service.py; Checks/Decision and Checks/Listing.
--   Batches: services/batches_service.py, in Parse (_validate_row, parse_and_validate) and Service;
--     Rows, Accounts, Created, Returned and Cancel hold proofs.
--   Worker: apps/worker/worker/main.py; Worker/Passes, Books and Cancelled.
--   Cursors: _encode_cursor and _decode_cursor, which checks_service.py and users_service.py both
--     have, with base64 (Base64) and the text of an identifier (Uuids); RoundTrip.
--   Routes/SignIn: the callback and logout of routes/auth_routes.py, and auth/dependencies.py.
--   Routes/Replies: exceptions/handlers.py. Routes/Screening: the endpoints of checks_routes.py and
--     batches_routes.py that submit or stop work. Routes/Reading: the endpoints that only read.
--   Routes/App: a request through the cross-origin guard of middleware.py.
--   Routes/Accounts: the endpoints of routes/users_routes.py that change an account, and the 500 of
--     middleware.py; Transactions/Raises, Auth0/Errors and Users/Errors say what is raised below.
--   Paging: the keyset pages that the two listings cut, and what following their cursors gives.
--   Transactions: rules for what a call leaves in its session and what it commits.
--   Invariants/LiveSessions: sessions of active accounts only, through every request.
--   Pipeline/Groups, Split and Capping: question_groups, assign_partitions and cap_train_humans of
--     corpus/build.py.
--   Pipeline/Runs: the loops of paraphrase/generate.py and human_edit/simulate.py `run`.
--   Pipeline/Folds: logo_folds.py. Pipeline/Attach: corpus/attach_styles.py. Pipeline/Words and
--     Pools: count_words and pick_student_answer of harness/generate.py. Pipeline/Splice: splice_at
--     and ai_share of splicer/splice.py.
--   Tests: the properties at concrete inputs.
--
-- Bounds and fuel. Times are microseconds and identifiers are natural numbers. A float is its IEEE
-- bit pattern, whose order is that of the floats that are not negative; the distance of two floats is
-- a parameter. The loop of `purge_expired_sessions` runs on one round more than there are sessions,
-- and every round but the last deletes one, so that is enough. The drain of a queue has the source's
-- bound of 200 rounds. The search for a question's root runs on the number of joins made so far; each
-- join makes one root a child of another, so no chain of parents is longer.
--
-- What is not modelled: logging, the text of messages and answers, cookies and URLs. `csv.DictReader`,
-- SHA-256, Auth0, SQS, S3, the database server and the detector are parameters. Requests do not
-- interleave: a row lock has nothing to do, and a concurrent writer shows only in what a commit or
-- a flush answers. A unique index is such an answer too, and so is a commit that takes effect
-- without an answer, which a failed `db.refresh` after it comes to. The listings take a
-- cursor's identifier, which Routes/Reading decodes. `str.lower` is that of ASCII. In the pipeline a
-- seeded shuffle or sample, the rounding of a share, a model's client, the cleaning of a text and the draw of an
-- edit are parameters; a share of words is its numerator and denominator; reading and writing of files
-- is left out, as are select.py's flow and the training.
pub mod Common
pub mod Models
pub mod World
pub mod Auth0
pub mod Aws
pub mod Users
pub mod Sessions
pub mod Transactions
pub mod Invariants
pub mod Routes
pub mod Paging
pub mod Checks
pub mod Cursors
pub mod Batches
pub mod Worker
pub mod Pipeline
pub mod Tests
