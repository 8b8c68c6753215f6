-- ===== src/Lib.antt =====
-- The core of the PPT video workbench's backend (apps/api/src/workbench): the durable job queue
-- that every long task of the application goes through, from enqueueing to the publication of its
-- artifacts, the leases by which workers hold resources, the scheduler that sends the items of a
-- batch to that queue, the caches of rendered artifacts with their collectors, the alignment of a
-- recording with the pages of a deck, and the continuity plan of a project.
--
-- The parts, and the files that model them:
-- - Jobs/Status.antt, Jobs/Record.antt: the enumerations of domain/enums.py, the status graph at
--   the head of jobs/repository.py, the rows of storage/workspace_db.py and the validation that
--   pydantic runs on them (domain/models.py, jobs/contracts.py).
-- - Jobs/Store.antt: the state of a JobRepository, its four tables as lists of rows in the order of
--   insertion, and the monad of its methods: a method takes the tables and returns a value or an
--   exception with the tables after it. A transaction that raises leaves the tables as they were,
--   what an earlier transaction of the same method committed stays.
-- - Jobs/Access.antt: get, _require_expected_revision, _write, _transition, current_attempt.
-- - Jobs/Control.antt: the requests for a pause, a resume, a cancel and a paid retry, and the
--   endings.
-- - Jobs/Enqueue.antt, Jobs/Claim.antt, Jobs/Progress.antt, Jobs/Checkpoints.antt,
--   Jobs/Publications.antt, Jobs/Recovery.antt: the other methods of jobs/repository.py, each under
--   its own name.
-- - Jobs/Leases.antt: the methods of ResourceLeaseService in jobs/leases.py.
-- - Jobs/Calls.antt: every writing method of JobRepository as one call, and runs of calls, as of
--   clients whose calls do not overlap. A method of several transactions is one step; what another
--   client does between the reading and the guarded UPDATE of a transition is the subject of
--   Jobs/Races.antt. What another client does between the transactions of recover_interrupted_jobs,
--   whose last UPDATEs are not guarded, is not covered.
-- - Jobs/Runner.antt: JobRunner.execute of jobs/runner.py.
-- - Scheduler/Batch.antt, Scheduler/Dispatch.antt, Scheduler/Status.antt, Scheduler/Service.antt:
--   the models of scheduler/models.py and the service of scheduler/service.py, which enqueues its
--   items through enqueue_or_get and reads its jobs through get.
-- - Audio/Timeline.antt, Audio/Cuts.antt, Audio/Align.antt: the timelines of domain/audio.py and
--   audio/alignment.py: update_boundary, _dynamic_programming_cuts, _boundary_time, align_pages.
-- - Cache/Index.antt, Cache/Gc.antt: the cache index of cache/repository.py with its file, and its
--   collector in cache/gc.py.
-- - Cache/Contracts.antt, Cache/Persistent.antt, Cache/Lookup.antt, Cache/PersistentGc.antt: the
--   cache in the database (cache/contracts.py, cache/persistent_repository.py) and its collector
--   (cache/persistent_gc.py), which takes entries by the revision that it saw; Cache/Events.antt:
--   the events of cache/invalidation.py; Cache/Graph.antt: DependencyGraph of
--   cache/dependency_graph.py.
-- - Continuity/Plan.antt, Continuity/Commands.antt, Continuity/State.antt, Continuity/Service.antt:
--   continuity/models.py and continuity/service.py, whose plans are in memory and in the files of
--   their revisions.
-- - Base.antt and its children: Boolean tests, lists, stable sorting, tables (the SQL UPDATE and
--   its rowcount), text.
-- - Jobs/Fixtures.antt and the modules whose names end in Scenarios: concrete tables and examples.
-- The remaining modules hold the proofs, named for what they prove.
--
-- What is a parameter: the SHA-256 of an encoded text or batch (sha256), the text of an id and of a
-- payload, the verifier of a publication and the cleanup of a cancelled job (a function that tells
-- whether it returned), the handler of a job and the signals of its token and context. The ids,
-- times and random suffixes that a call draws are arguments of it. In the alignment, the cost of a
-- page and its comparison (floating-point numbers over a similarity ratio of the standard library),
-- the expected end of a page and the search radius; in the caches, the digest of a dependency, the
-- text of the index and what is read back of it, the resolution of a path, the check of a file
-- against its hashes and whether a file can be written or unlinked; in the continuity plan, whether
-- a folder is inside the workspace and the pages of the project service.
--
-- Conventions: a UUID and a time stamp are natural numbers in the order of their texts; a progress
-- is a number of millionths, as is a coordinate; a digest and a cache key are the number that their
-- hexadecimal digits write; payloads, results, manifests and checkpoints are their encoded texts.
-- The row that an unordered SELECT returns first is the first inserted (in enqueue_or_get several
-- rows can match only with an idempotency key, and SQLite may then give another one first). Of the
-- revisions of a continuity plan the last file name is the greatest revision, as it is up to eight
-- digits. The loop of JobRunner.execute recurses on fuel, the attempts that the job may have
-- (Jobs/RunnerEnds.antt); all other recursion is structural. There is no bound on the size of the
-- tables.
--
-- A write of the cache index or of a batch's file may fail; what the call has put into memory by
-- then stays there. The file of a continuity plan is taken to be written wherever its folder is
-- inside the workspace. The partial unique index that only workspaces migrated from schema 1 have
-- (storage/migrations.py) is under a flag of the tables: it constrains the INSERT of enqueue_or_get
-- and the one UPDATE that brings a row into it, the confirmation of a paid retry.
--
-- Not modelled: the list queries of the jobs, the recovery of a job from its checkpoints and the
-- worker threads, the change matrix and the clean-up of the cache, and the media and HTTP parts of
-- the backend; SQLite itself beyond the constraints of the tables; reading back the files of the
-- scheduler's batches; the statuses of rows from before schema 2, which the migration rewrites.
pub mod Audio
pub mod Base
pub mod Cache
pub mod Continuity
pub mod Jobs
pub mod Scheduler
