-- ===== src/Jobs/Enqueue.antt =====
-- `JobSpec` and `enqueue_or_get` of jobs/repository.py.
use Prim.Native.String.{◌++◌ as ◌then_text◌}
use ppt_video_workbench_v.Base.{
  ℕ, String, [], ◌∷◌, ◌++◌, Option, none, some, Bool, true, false, ◌&&◌, ◌||◌, ◌==◌, min, find, any,
  str_eq, is_empty, nonzero_or, value_or, if◌then◌else◌,
}
use ppt_video_workbench_v.Base.Int.{ℤ}
use ppt_video_workbench_v.Jobs.Status.{
  JobType, queued, succeeded, export_package, same_status, same_type, is_active,
}
use ppt_video_workbench_v.Jobs.Record.{Job, ResourceRequest, valid_job}
use ppt_video_workbench_v.Jobs.Store.{M, ok, err, integrity, validation}

pub record JobSpec : Type 0 where
  pub project_id : ℕ
  pub job_type : JobType
  pub cache_key : String
  pub input_fingerprint : Option String
  pub idempotency_key : Option String
  pub payload : Option String
  pub page_id : Option ℕ
  pub parent_job_id : Option ℕ
  pub paid : Bool
  pub max_attempts : Option ℕ
  pub priority : ℤ
  pub resource_request : ResourceRequest
  pub runtime_fingerprint : Option String

pub record EnqueueResult : Type 0 where
  pub job : Job
  pub created : Bool

-- What the call draws from outside: the clock, the id, and the hexadecimal text of a second UUID.
pub record Draw : Type 0 where
  pub now : ℕ
  pub job_id : ℕ
  pub suffix : String

abbrev same_text : Option String → String → Bool
same_text none t = false
same_text (some s) t = str_eq s t

-- The last criterion: by cache key, or with a non-empty idempotency key by either of the two.
abbrev pub same_key : Option String → String → Job → Bool
same_key none cache_key j = str_eq j.cache_key cache_key
same_key (some key) cache_key j =
    if is_empty key
    then str_eq j.cache_key cache_key
    else same_text j.idempotency_key key || str_eq j.cache_key cache_key

unfoldable pub wanted : JobSpec → Job → Bool
wanted spec j =
    (j.project_id == spec.project_id)
    && (same_type j.job_type spec.job_type && same_key spec.idempotency_key spec.cache_key j)

abbrev pub attempt_limit : JobSpec → ℕ
attempt_limit spec =
    let configured = nonzero_or spec.max_attempts 3 in
    if spec.paid then min configured 2 else configured

-- The row that the INSERT writes.
unfoldable pub new_row : JobSpec → String → Draw → Job
new_row spec cache_key draw = record {
  id = draw.job_id;
  project_id = spec.project_id;
  job_type = spec.job_type;
  status = queued;
  cache_key = cache_key;
  page_id = spec.page_id;
  progress = 0;
  attempts = 0;
  max_attempts = attempt_limit spec;
  paid = spec.paid;
  error = none;
  created_at = draw.now;
  updated_at = draw.now;
  input_fingerprint = spec.input_fingerprint;
  idempotency_key = spec.idempotency_key;
  parent_job_id = spec.parent_job_id;
  payload_json = value_or spec.payload "{}";
  result_json = none;
  stage = "queued";
  message = "已加入渲染队列";
  error_code = none;
  revision = 1;
  priority = spec.priority;
  current_attempt_id = none;
  heartbeat_at = none;
  started_at = none;
  finished_at = none;
  resource_wait = none;
}

-- The WHERE of the index `uq_jobs_active_project_type`.
unfoldable pub is_indexed : Job → Bool
unfolding is_active
is_indexed j = same_type j.job_type export_package && is_active j.status

-- The primary key, the UNIQUE (project_id, cache_key) of the table and, in a workspace migrated from
-- schema 1, the unique index of the project's active export job.
unfoldable pub clashes : Bool → Job → Job → Bool
clashes migrated new old =
    (old.id == new.id)
    || ((old.project_id == new.project_id)
        && (str_eq old.cache_key new.cache_key || (migrated && (is_indexed new && is_indexed old))))

-- The INSERT, and `_to_record` after its transaction has been committed.
unfoldable pub insert_job : Job → M EnqueueResult
unfolding valid_job clashes
insert_job new db = if any (clashes db.migrated new) db.jobs then (err integrity, db) else (
  if valid_job new then ok (record { job = new; created = true }) else err validation,
  record db { jobs = db.jobs ++ new ∷ [] },
)

unfoldable pub retry_key : JobSpec → Draw → String
retry_key spec draw = spec.cache_key then_text (":retry:" then_text draw.suffix)

abbrev pub reusable : Bool → Job → Bool
reusable reuse_succeeded old =
    is_active old.status || (reuse_succeeded && same_status old.status succeeded)

abbrev pub enqueue_beside : JobSpec → Bool → Draw → Option Job → M EnqueueResult
enqueue_beside spec reuse_succeeded draw none db = insert_job (new_row spec spec.cache_key draw) db
enqueue_beside spec reuse_succeeded draw (some old) db =
    if valid_job old
    then if reusable reuse_succeeded old
      then (ok (record { job = old; created = false }), db)
      else insert_job (new_row spec (retry_key spec draw) draw) db
    else (err validation, db)

-- `enqueue_or_get`. The SELECT has no order: its first row is taken in the order of insertion.
-- Without an idempotency key at most one row matches, since project and cache key are unique; with
-- one, several may, and SQLite may give another of them first.
unfoldable pub enqueue_or_get : JobSpec → Bool → Draw → M EnqueueResult
unfolding wanted is_active valid_job new_row insert_job retry_key
enqueue_or_get spec reuse_succeeded draw db =
    enqueue_beside spec reuse_succeeded draw (find (wanted spec) db.jobs) db
