-- ===== src/Lib.antt =====
-- Verification library of immich-rs, a client for the photo server Immich that plans before it
-- writes: a source is scanned into a normalized plan, a plan of uploads is derived from it and
-- reviewed, and only a validated plan is applied, with a journal that lets an interrupted run resume.
--
-- Parts and files (paths from the root of the repository):
--   Common: shared types. Texts are lists of their UTF-8 bytes, `String` ordering is bytewise
--     (Common/Bytes), `BTreeMap` is an ordered association list (Common/Map), `Result` and `?` are
--     a sum with a bind (Common/Outcome). Numbers are natural numbers; sums of u64 wrap or saturate
--     where the code does (Common/Tests).
--   Core: crates/immich-core/src. Core/Metadata is metadata.rs, Core/Planning planning.rs,
--     Core/Roles and Core/Upload upload.rs, Core/Archive archive.rs, Core/Migration migration.rs,
--     Core/Production production.rs, Core/Reports apply_report.rs and import_report.rs. A validator is a function by
--     the same name, its loop a recursion that carries the previous path and the identifiers seen;
--     the modules Sound state what an accepted plan satisfies. The `time` crate and floating point
--     are fields of Core/Platform.
--   Client: crates/immich-client/src. Client/Errors is error.rs and the status classes of
--     response.rs; Client/Uploads is the duplicate check and the upload of upload.rs. What sends
--     the requests is the record Network, whose fields may answer anything and change the world.
--   Executor: crates/immich-executor/src. Executor/Config is config.rs and error.rs,
--     Executor/Retry retry.rs, Executor/Journal journal.rs, Executor/Operation operation.rs,
--     Executor/Groups and Executor/Apply apply.rs. The apply loop asks the client, writes each
--     outcome to the journal and counts it in the report; a resumed run reads the journal first.
--   Web: crates/immich-web/src. Web/Limits is limits.rs. Web/Grants is grants.rs: the state behind
--     its mutex, which the calls change one at a time; what the store, the configuration and the job
--     queue answer are arguments. Web/Jobs is jobs.rs and jobs/: the data in Jobs/Types, admissions in
--     Jobs/Admission, a worker's turns and ends in Jobs/Worker, cancel, shutdown, snapshot, metrics and
--     progress in Jobs/Control, subscriptions in Jobs/Subscription. Jobs/Steps lets these calls follow
--     one another in any order, and keeps the threads that wait on the condition variable; Jobs/Book
--     has the moves that the calls come down to. A call takes effect at once while it holds the lock; what
--     cancel does after it takes the lock again is a step of its own.
--     Web/Console is the preparation of a grant in grants.rs, and Web/Console/Offline jobs/dry_run.rs;
--     the record Console is what the configuration and the store answer at one moment.
--
-- Bounds and fuel: the loop of one upload has as many rounds as the configuration has attempts,
-- which is enough for every configuration with at least one attempt. All other loops are recursions
-- on their lists, but for the two loops of jobs.rs: reap_workers runs as many rounds as there are
-- handles, evict_terminal one round more than there are jobs in the order; each round takes one away
-- or passes it. Durations are in nanoseconds.
--
-- Not modelled: HTTP, TLS, JSON, SQLite and the file system; the scanners of crates/immich-sources;
-- the import, archive and migration runs; the command line; the rest of
-- the web console. Groups of uploads run
-- one after the other here, while the program keeps several under way.
pub mod Common
pub mod Core
pub mod Client
pub mod Executor
pub mod Web
