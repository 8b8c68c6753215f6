-- ===== src/Jobs/Access.antt =====
-- JobRepository in jobs/repository.py: reading a job, the guarded write, and the status transition
-- that every status change but recovery and claiming goes through.
use ppt_video_workbench_v.Base.{
  ℕ, ◌+◌, Option, none, some, Bool, true, not, ◌&&◌, ◌==◌, find, update_where, count_where,
  if◌then◌else◌,
}
use ppt_video_workbench_v.Jobs.Status.{
  JobStatus, paused, needs_confirmation, succeeded, failed, cancelled, AttemptStatus, same_status,
  allowed,
}
use ppt_video_workbench_v.Jobs.Record.{Job, Attempt, valid_job, valid_attempt}
use ppt_video_workbench_v.Jobs.Store.{
  Db, M, Result, ok, err, not_found, validation, conflict, pure, raise, refuse_if, ◌>>=◌, ◌>>◌,
}

-- `_to_record` on a row that a query returned.
abbrev pub to_record : Option Job → Result Job
to_record none = err not_found
to_record (some j) = if valid_job j then ok j else err validation

abbrev pub job_of : ℕ → Db → Option Job
job_of id db = find (λ j. j.id == id) db.jobs

unfoldable pub get : ℕ → M Job
get id db = (to_record (job_of id db), db)

-- `_require_expected_revision`
unfoldable pub require_expected_revision : Job → Option ℕ → M Unit
require_expected_revision seen none = pure tt
require_expected_revision seen (some r) = refuse_if (not (seen.revision == r)) conflict

abbrev pub status_is : Option JobStatus → Job → Bool
status_is none j = true
status_is (some s) j = same_status j.status s

abbrev pub revision_is : Option ℕ → Job → Bool
revision_is none j = true
revision_is (some r) j = j.revision == r

-- The rows that the UPDATE of `_write` hits.
abbrev pub written : ℕ → Option JobStatus → Option ℕ → Job → Bool
written id status revision j = (j.id == id) && (status_is status j && revision_is revision j)

-- `_write`: the UPDATE is rolled back unless it hit one row.
unfoldable pub write : ℕ → (Job → Job) → Option JobStatus → Option ℕ → M Job
unfolding get
write id change status revision db =
    if count_where (written id status revision) db.jobs == 1
    then get id (record db { jobs = update_where (written id status revision) change db.jobs })
    else (err conflict, db)

-- The status that a transition gives to the current attempt.
unfoldable pub attempt_status : JobStatus → Option AttemptStatus
attempt_status paused = some AttemptStatus.paused
attempt_status needs_confirmation = some AttemptStatus.paused
attempt_status succeeded = some AttemptStatus.succeeded
attempt_status failed = some AttemptStatus.failed
attempt_status cancelled = some AttemptStatus.cancelled
attempt_status _ = none

abbrev pub close_attempt : AttemptStatus → ℕ → Attempt → Attempt
close_attempt status now a = record a {
  status = status;
  finished_at = some now;
  heartbeat_at = none;
  revision = a.revision + 1;
}

unfoldable pub sync_attempt : Option AttemptStatus → Option ℕ → ℕ → M Unit
sync_attempt none attempt now db = (ok tt, db)
sync_attempt (some status) none now db = (ok tt, db)
sync_attempt (some status) (some attempt) now db = (
  ok tt,
  record db {
    attempts = update_where (λ a. a.id == attempt) (close_attempt status now) db.attempts;
  },
)

-- The columns that every transition sets, over those of its caller.
abbrev pub moved : JobStatus → (Job → Job) → ℕ → Job → Job
moved target change now j = record (change j) {
  status = target;
  updated_at = now;
  revision = j.revision + 1;
}

abbrev pub close_after : JobStatus → Job → ℕ → Job → M Job
close_after target seen now updated = do
  sync_attempt (attempt_status target) seen.current_attempt_id now
  pure updated

-- The part of `_transition` after the row was read as `seen`.
unfoldable pub finish_transition : ℕ → JobStatus → (Job → Job) → ℕ → Job → M Job
unfolding write attempt_status sync_attempt
finish_transition id target change now seen = do
  updated ← write id (moved target change now) (some seen.status) (some seen.revision)
  close_after target seen now updated

abbrev pub decide_transition : ℕ → JobStatus → (Job → Job) → ℕ → Job → M Job
decide_transition id target change now seen =
    if same_status seen.status target
    then pure seen
    else if allowed seen.status target
    then finish_transition id target change now seen
    else raise conflict

-- `_transition`
unfoldable pub transition : ℕ → JobStatus → Option ℕ → (Job → Job) → ℕ → M Job
unfolding get require_expected_revision allowed finish_transition
transition id target expected change now = do
  seen ← get id
  require_expected_revision seen expected
  decide_transition id target change now seen

-- `_to_attempt` on a row that a query returned.
abbrev pub to_attempt : Option Attempt → Result (Option Attempt)
to_attempt none = ok none
to_attempt (some a) = if valid_attempt a then ok (some a) else err validation

abbrev pub attempt_of : ℕ → Db → Option Attempt
attempt_of id db = find (λ a. a.id == id) db.attempts

abbrev pub read_attempt : Option ℕ → M (Option Attempt)
read_attempt none db = (ok none, db)
read_attempt (some id) db = (to_attempt (attempt_of id db), db)

-- `current_attempt`
unfoldable pub current_attempt : ℕ → M (Option Attempt)
unfolding get
current_attempt id = do seen ← get id; read_attempt seen.current_attempt_id
