-- ===== src/Jobs/Fixtures.antt =====
-- Concrete tables of jobs, for the examples.
use ppt_video_workbench_v.Base.{
  ℕ, ◌≡◌, ◌≢◌, refl, String, List, [], ◌∷◌, Option, none, some, true, false, arith, All, fits_in,
  is_hex_of, find, any,
}
use ppt_video_workbench_v.Base.Int.{pos}
use ppt_video_workbench_v.Jobs.Status.{
  AttemptStatus, is_active, render_page, JobStatus, queued, running, failed, export_package,
}
use ppt_video_workbench_v.Jobs.Record.{
  Job, Attempt, CheckpointRow, Publication, reserved, published, default_request, valid_job,
  valid_checkpoint, valid_attempt,
}
use ppt_video_workbench_v.Jobs.Store.{Db, ok}
use ppt_video_workbench_v.Jobs.Access.{current_attempt}
use ppt_video_workbench_v.Jobs.Enqueue.{
  JobSpec, Draw, new_row, wanted, reusable, clashes, retry_key,
}
use ppt_video_workbench_v.Jobs.Claim.{Claim}
use ppt_video_workbench_v.Jobs.Checkpoints.{CheckpointArgs, record_checkpoint}
use ppt_video_workbench_v.Jobs.Lifecycle.{Inv}
use ppt_video_workbench_v.Jobs.Calls.{Call, pauses, fails}
use ppt_video_workbench_v.Jobs.Dedup.{with_job, retry_row}

-- A digest of sixty-four letters, for every text.
abbrev pub digest : String
digest = "aaaaaaaaaaaaaaaaaaaaaaaaaaaaaaaaaaaaaaaaaaaaaaaaaaaaaaaaaaaaaaaa"

abbrev pub hashed : String → String
hashed s = digest

abbrev pub spec : JobSpec
spec = record {
  project_id = 7;
  job_type = export_package;
  cache_key = "render-1";
  input_fingerprint = none;
  idempotency_key = none;
  payload = none;
  page_id = none;
  parent_job_id = none;
  paid = false;
  max_attempts = none;
  priority = pos 0;
  resource_request = default_request;
  runtime_fingerprint = none;
}

abbrev pub first_draw : Draw
first_draw = record { now = 10; job_id = 1; suffix = "aa" }

abbrev pub second_draw : Draw
second_draw = record { now = 20; job_id = 2; suffix = "bb" }

abbrev pub third_draw : Draw
third_draw = record { now = 30; job_id = 3; suffix = "cc" }

-- A job of the spec, in a status, at a revision, under an attempt.
abbrev pub job_at : ℕ → JobStatus → ℕ → Option ℕ → Job
job_at id status revision attempt = record {
  id = id;
  project_id = 7;
  job_type = export_package;
  status = status;
  cache_key = "render-1";
  page_id = none;
  progress = 250000;
  attempts = 1;
  max_attempts = 3;
  paid = false;
  error = none;
  created_at = 5;
  updated_at = 6;
  input_fingerprint = none;
  idempotency_key = none;
  parent_job_id = none;
  payload_json = "{}";
  result_json = none;
  stage = "rendering";
  message = "";
  error_code = none;
  revision = revision;
  priority = pos 0;
  current_attempt_id = attempt;
  heartbeat_at = none;
  started_at = none;
  finished_at = none;
  resource_wait = none;
}

abbrev pub with_jobs : List Job → Db
with_jobs js = record {
  jobs = js;
  attempts = [];
  checkpoints = [];
  publications = [];
  migrated = false;
}

-- One running job under attempt 40, at revision 4.
abbrev pub busy : Db
busy = with_jobs (job_at 1 running 4 (some 40) ∷ [])

-- Two queued jobs, the older one second.
abbrev pub waiting : Db
waiting =
    with_jobs (record (job_at 1 queued 1 none) { created_at = 9 } ∷ job_at 2 queued 1 none ∷ [])

-- One failed job.
abbrev pub broken : Db
broken = with_jobs (job_at 9 failed 5 none ∷ [])

pub busy-Inv : Inv busy.jobs
busy-Inv = record { distinct = (refl, tt); bounded = (omega arith, tt) }

pub waiting-Inv : Inv waiting.jobs
waiting-Inv = record { distinct = (refl, (refl, tt)); bounded = (omega arith, (omega arith, tt)) }

abbrev pub calls : List Call
calls = pauses 1 none 50 ∷ fails 1 "stopped" "render_failed" 60 ∷ []

pub busy-valid : valid_job (job_at 1 running 4 (some 40)) ≡ true
unfolding valid_job
busy-valid = refl

pub three_not_four : ◌≢◌ {A = ℕ} 3 4
three_not_four e = absurd (omega arith)

abbrev pub claim_a : Claim
claim_a = record { worker_id = some "w"; runtime_fingerprint = none; attempt_id = 41; now = 60 }

abbrev pub claim_b : Claim
claim_b = record { worker_id = some "w"; runtime_fingerprint = none; attempt_id = 42; now = 61 }

pub waiting-valid : All (λ j. valid_job j ≡ true) waiting.jobs
unfolding valid_job
waiting-valid = (refl, (refl, tt))

-- A publication of attempt 40, reserved.
abbrev pub reserved_row : Publication
reserved_row = record {
  publication_key = "video";
  job_id = 1;
  attempt_id = 40;
  state = reserved;
  manifest_json = "{}";
  manifest_hash = digest;
  published_at = none;
  revision = 1;
}

abbrev pub attempt_forty : Attempt
attempt_forty = record {
  id = 40;
  job_id = 1;
  generation = 1;
  status = AttemptStatus.running;
  worker_id = some "w";
  runtime_fingerprint = none;
  started_at = 5;
  heartbeat_at = none;
  finished_at = none;
  exit_code = none;
  error_code = none;
  checkpoint_sequence = some 1;
  revision = 2;
}

abbrev pub checkpoint_one : CheckpointRow
checkpoint_one = record {
  job_id = 1;
  attempt_id = 40;
  sequence = 1;
  checkpoint_json = "{}";
  checkpoint_hash = digest;
  created_at = 6;
}

-- What recording the next checkpoint appends.
abbrev pub checkpoint_two : CheckpointRow
checkpoint_two = record checkpoint_one { sequence = 2; created_at = 80 }

abbrev pub checkpoint_args : CheckpointArgs
checkpoint_args = record {
  checkpoint_json = "{}";
  attempt_id = none;
  sequence = none;
  checkpoint_hash = none;
}

-- The running job with its attempt, one checkpoint and one reservation.
abbrev pub ready : Db
ready = record busy {
  attempts = attempt_forty ∷ [];
  checkpoints = checkpoint_one ∷ [];
  publications = reserved_row ∷ [];
}

abbrev pub released_db : Db
released_db = record ready {
  publications = record reserved_row { state = published; published_at = some 70 } ∷ [];
}

pub two_recorded : (record_checkpoint hashed 1 checkpoint_args 80 ready).0 ≡ ok checkpoint_two
unfolding record_checkpoint valid_checkpoint current_attempt valid_job valid_attempt fits_in
    is_hex_of
two_recorded = refl

pub first-valid : valid_job (new_row spec "render-1" first_draw) ≡ true
unfolding valid_job new_row
first-valid = refl

pub first_retry-valid : valid_job (retry_row spec first_draw) ≡ true
unfolding valid_job new_row
first_retry-valid = refl

pub second_retry-valid : valid_job (retry_row spec second_draw) ≡ true
unfolding valid_job new_row
second_retry-valid = refl

pub broken-valid : valid_job (job_at 9 failed 5 none) ≡ true
unfolding valid_job
broken-valid = refl

pub broken-found : find (wanted spec) broken.jobs ≡ some (job_at 9 failed 5 none)
unfolding wanted
broken-found = refl

pub broken-spent : reusable true (job_at 9 failed 5 none) ≡ false
unfolding is_active
broken-spent = refl

pub first-free : any (clashes false (retry_row spec first_draw)) broken.jobs ≡ false
unfolding clashes new_row retry_key
first-free = refl

pub second-free :
    any
      (clashes false (retry_row spec second_draw))
      (with_job (retry_row spec first_draw) broken).jobs
    ≡ false
unfolding clashes new_row retry_key
second-free = refl

pub no_other_type : find (wanted (record spec { job_type = render_page })) broken.jobs ≡ none
unfolding wanted
no_other_type = refl
