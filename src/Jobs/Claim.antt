-- ===== src/Jobs/Claim.antt =====
-- `claim_next` of jobs/repository.py.
use ppt_video_workbench_v.Base.{
  ℕ, ◌+◌, max, String, List, [], ◌∷◌, ◌++◌, Option, none, some, Bool, ◌&&◌, ◌||◌, ◌==◌, ltb, any,
  count_where, update_where, if◌then◌else◌,
}
use ppt_video_workbench_v.Jobs.Status.{
  JobType, queued, running, AttemptStatus, same_status, same_type,
}
use ppt_video_workbench_v.Jobs.Record.{Job, Attempt, valid_job}
use ppt_video_workbench_v.Jobs.Store.{M, Result, ok, err, integrity}
use ppt_video_workbench_v.Jobs.Access.{job_of, to_record, written}

-- ORDER BY created_at, id
unfoldable pub earlier : Job → Job → Bool
earlier a b = ltb a.created_at b.created_at || ((a.created_at == b.created_at) && ltb a.id b.id)

abbrev pub sooner : Job → Option Job → Job
sooner a none = a
sooner a (some b) = if earlier b a then b else a

-- SELECT ... WHERE hit ORDER BY created_at, id LIMIT 1
unfoldable pub first_row : (Job → Bool) → List Job → Option Job
unfolding earlier
first_row hit [] = none
first_row hit (j ∷ js) = let rest = first_row hit js in if hit j then some (sooner j rest) else rest

abbrev pub claimable : JobType → Job → Bool
claimable type j = same_type j.job_type type && same_status j.status queued

-- `int(previous_generation or 0)`: the greatest generation of the job, 0 if it has none.
unfoldable pub last_generation : ℕ → List Attempt → ℕ
last_generation job [] = 0
last_generation job (a ∷ rest) =
    let others = last_generation job rest in
    if a.job_id == job then max a.generation others else others

-- Who claims, and what the call draws from outside.
pub record Claim : Type 0 where
  pub worker_id : Option String
  pub runtime_fingerprint : Option String
  pub attempt_id : ℕ
  pub now : ℕ

unfoldable pub new_attempt : Claim → Job → List Attempt → Attempt
new_attempt c j attempts = record {
  id = c.attempt_id;
  job_id = j.id;
  generation = last_generation j.id attempts + 1;
  status = AttemptStatus.running;
  worker_id = c.worker_id;
  runtime_fingerprint = c.runtime_fingerprint;
  started_at = c.now;
  heartbeat_at = some c.now;
  finished_at = none;
  exit_code = none;
  error_code = none;
  checkpoint_sequence = none;
  revision = 1;
}

-- The columns that claiming sets.
abbrev pub claimed_row : Claim → Job → Job
claimed_row c j = record j {
  status = running;
  stage = "validating_input";
  message = "正在校验渲染输入";
  started_at = some c.now;
  heartbeat_at = some c.now;
  current_attempt_id = some c.attempt_id;
  updated_at = c.now;
  revision = j.revision + 1;
  error = none;
  error_code = none;
}

-- The primary key, and the UNIQUE (job_id, generation) of the table.
abbrev pub attempt_clashes : Attempt → Attempt → Bool
attempt_clashes new old =
    (old.id == new.id) || ((old.job_id == new.job_id) && (old.generation == new.generation))

abbrev pub as_claimed : Result Job → Result (Option Job)
as_claimed (ok j) = ok (some j)
as_claimed (err e) = err e

abbrev reread : ℕ → M (Option Job)
reread id db = (as_claimed (to_record (job_of id db)), db)

-- The guarded UPDATE of the candidate, and the row it leaves, read back and validated.
unfoldable pub take_job : Claim → ℕ → M (Option Job)
unfolding valid_job
take_job c id db =
    if count_where (written id (some queued) none) db.jobs == 1
    then reread id
        (record db { jobs = update_where (written id (some queued) none) (claimed_row c) db.jobs })
    else (ok none, db)

abbrev pub claim_row : Claim → Option Job → M (Option Job)
claim_row c none db = (ok none, db)
claim_row c (some j) db =
    let attempt = new_attempt c j db.attempts in
    if any (attempt_clashes attempt) db.attempts
    then (err integrity, db)
    else take_job c j.id (record db { attempts = db.attempts ++ attempt ∷ [] })

-- `claim_next`: the claim lock makes the call one step.
unfoldable pub claim_next : JobType → Claim → M (Option Job)
unfolding first_row new_attempt take_job last_generation
claim_next type c db = claim_row c (first_row (claimable type) db.jobs) db
