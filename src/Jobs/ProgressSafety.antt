-- ===== src/Jobs/ProgressSafety.antt =====
-- `update_progress`, `heartbeat`, `record_attempt` and `claim_next` of jobs/repository.py keep the
-- invariant and advance the rows.
use ppt_video_workbench_v.Base.{
  ℕ, ◌≤◌, ◌≡◌, refl, inl, inr, String, [], ◌∷◌, ◌++◌, Option, none, some, true, not, ◌==◌, ltb, leb,
  any, All, count_where, update_where, arith, Bool-cases, and-eq_true,
}
use ppt_video_workbench_v.Jobs.Status.{JobStatus, JobType, queued, running, same_status}
use ppt_video_workbench_v.Jobs.Record.{Job, Attempt, whole, valid_job}
use ppt_video_workbench_v.Jobs.Store.{
  Db, Result, ok, err, conflict, value_error, pure, refuse_if, follow, ◌>>=◌, ◌>>◌,
}
use ppt_video_workbench_v.Jobs.Access.{
  job_of, to_record, get, write, written, current_attempt, read_attempt,
}
use ppt_video_workbench_v.Jobs.Progress.{
  Report, reported, progress_seen, update_progress, beaten, beat_attempt, beat_after, beat_seen,
  other_attempt, other_generation, require_generation, heartbeat, tried, record_attempt,
}
use ppt_video_workbench_v.Jobs.Claim.{
  Claim, claimable, first_row, new_attempt, claimed_row, attempt_clashes, take_job, claim_row,
  claim_next,
}
use ppt_video_workbench_v.Jobs.Lifecycle.{
  lifecycle, Advances, Pointwise, Pointwise-refl, update_where-Pointwise,
}
use ppt_video_workbench_v.Jobs.Safety.{
  Safe, Quiet, Quiet-Safe, refuse-Safe, get-Safe, read-Safe, then-Quiet-Safe, write-Safe,
  valid-bounded, All-map,
}

same-lifecycle : (a : JobStatus) → lifecycle a a ≡ true
unfolding lifecycle
same-lifecycle a = ground arith

reported-Advances :
    (r : Report) (now : ℕ) (j : Job)
    → j.progress ≤ r.progress
    → r.progress ≤ whole
    → Advances j (reported r now j)
reported-Advances r now j h k = record {
  same_id = refl;
  same_project = refl;
  same_job_type = refl;
  same_cache_key = refl;
  same_paid = refl;
  same_limit = refl;
  same_creation = refl;
  status_moves = same-lifecycle j.status;
  progress_grows = h;
  progress_bounded = k;
  attempts_grow = omega arith;
  stamped = inr (omega arith);
}

beaten-Advances : (now : ℕ) (j : Job) → j.progress ≤ whole → Advances j (beaten now j)
beaten-Advances now j h = record {
  same_id = refl;
  same_project = refl;
  same_job_type = refl;
  same_cache_key = refl;
  same_paid = refl;
  same_limit = refl;
  same_creation = refl;
  status_moves = same-lifecycle j.status;
  progress_grows = omega arith;
  progress_bounded = h;
  attempts_grow = omega arith;
  stamped = inr (omega arith);
}

tried-Advances :
    (error : Option String) (now : ℕ) (j : Job)
    → j.progress ≤ whole
    → Advances j (tried j error now j)
tried-Advances error now j h = record {
  same_id = refl;
  same_project = refl;
  same_job_type = refl;
  same_cache_key = refl;
  same_paid = refl;
  same_limit = refl;
  same_creation = refl;
  status_moves = same-lifecycle j.status;
  progress_grows = omega arith;
  progress_bounded = h;
  attempts_grow = omega arith;
  stamped = inr (omega arith);
}

queued_runs : (a : JobStatus) → same_status a queued ≡ true → lifecycle a running ≡ true
unfolding lifecycle
queued_runs a h = ground arith

claimed-Advances :
    (c : Claim) (j : Job)
    → j.progress ≤ whole
    → same_status j.status queued ≡ true
    → Advances j (claimed_row c j)
claimed-Advances c j h q = record {
  same_id = refl;
  same_project = refl;
  same_job_type = refl;
  same_cache_key = refl;
  same_paid = refl;
  same_limit = refl;
  same_creation = refl;
  status_moves = queued_runs j.status q;
  progress_grows = omega arith;
  progress_bounded = h;
  attempts_grow = omega arith;
  stamped = inr (omega arith);
}

module _ (id : ℕ) (now : ℕ) (db : Db) where
  pub update_progress-Safe : (r : Report) → Safe (update_progress id r now) db
  unfolding update_progress
  update_progress-Safe r =
      refuse-Safe (not (leb r.progress whole)) value_error (get id >>= progress_seen id r now) db
        λ b. get-Safe id (progress_seen id r now) db λ j e v.
          refuse-Safe (ltb r.progress j.progress) value_error
            (write id (reported r now) none (some j.revision)) db
            λ f.
              write-Safe id (reported r now) none (some j.revision) db j e
                λ _ _ _. reported-Advances r now j (ground arith) (ground arith)

  pub record_attempt-Safe : (error : Option String) → Safe (record_attempt id error now) db
  unfolding record_attempt
  record_attempt-Safe error =
      get-Safe id (λ j. write id (tried j error now) none (some j.revision)) db
        λ j e v.
          write-Safe id (tried j error now) none (some j.revision) db j e
            λ _ _ _. tried-Advances error now j (valid-bounded j v)

  beat_after-Quiet :
      (a : Option ℕ) (updated : Job) (db' : Db) → Quiet (beat_attempt a now >> pure updated) db'
  unfolding beat_attempt
  beat_after-Quiet none updated db' = record { kept = refl }
  beat_after-Quiet (some a) updated db' = record { kept = refl }

  beat_seen-Safe :
      (j : Job) → job_of id db ≡ some j → valid_job j ≡ true → Safe (beat_seen id now j) db
  beat_seen-Safe j e v =
      then-Quiet-Safe (write id (beaten now) none (some j.revision)) (beat_after j now) db
        (write-Safe id (beaten now) none (some j.revision) db j e
          λ _ _ _. beaten-Advances now j (valid-bounded j v))
        (beat_after-Quiet j.current_attempt_id)

  read_attempt-reads : (a : Option ℕ) → (read_attempt a db).1 ≡ db
  read_attempt-reads none = refl
  read_attempt-reads (some a) = refl

  pub current_attempt-reads : (current_attempt id db).1 ≡ db
  unfolding current_attempt get
  current_attempt-reads = go (to_record (job_of id db))
    where
      go : (r : Result Job) → (follow (λ j. read_attempt j.current_attempt_id) r db).1 ≡ db
      go (ok j) = read_attempt-reads j.current_attempt_id
      go (err e) = refl

  generation-reads : (g : Option ℕ) → (require_generation id g db).1 ≡ db
  generation-reads none = refl
  generation-reads (some g) =
      go (current_attempt id db).0 (current_attempt id db).1 current_attempt-reads
    where
      go :
          (r : Result (Option Attempt)) (db' : Db)
          → db' ≡ db
          → (follow (λ c. refuse_if (other_generation g c) conflict) r db').1 ≡ db
      go (err e) db' s = s
      go (ok c) db' s = elim (Bool-cases (other_generation g c)) [ inl e ↦ rw e s | inr e ↦ rw e s ]

  pub heartbeat-Safe :
      (attempt generation : Option ℕ) → Safe (heartbeat id attempt generation now) db
  unfolding heartbeat
  heartbeat-Safe attempt generation =
      get-Safe id
        (λ j.
          refuse_if (other_attempt attempt j) conflict
          >> (require_generation id generation >> beat_seen id now j))
        db
        λ j e v.
          refuse-Safe (other_attempt attempt j) conflict
            (require_generation id generation >> beat_seen id now j) db
            λ _.
              read-Safe (require_generation id generation) (λ _. beat_seen id now j) db
                (generation-reads generation) λ _ _. beat_seen-Safe j e v

  taken_rows :
      (c : Claim)
      → All (λ j. j.progress ≤ whole) db.jobs
      → Pointwise db.jobs (update_where (written id (some queued) none) (claimed_row c) db.jobs)
  taken_rows c b =
      update_where-Pointwise (written id (some queued) none) (claimed_row c) db.jobs b (
        All-map _ _ db.jobs
          (λ j h t. let (a, q) = and-eq_true _ _ t in claimed-Advances c j h (and-eq_true _ _ q).0)
          b)

  take_job-Safe : (c : Claim) → Safe (take_job c id) db
  unfolding take_job
  take_job-Safe c = record {
    rows = λ v. elim (Bool-cases (count_where (written id (some queued) none) db.jobs == 1)) [
      | inl one ↦ rw one (taken_rows c v.bounded)
      | inr other ↦ rw other (Pointwise-refl _ v.bounded)
    ];
  }

claim_row-Safe : (c : Claim) (o : Option Job) (db : Db) → Safe (claim_row c o) db
claim_row-Safe c none db = Quiet-Safe (record { kept = refl })
claim_row-Safe c (some j) db = record {
  rows = λ v. elim (Bool-cases (any (attempt_clashes (new_attempt c j db.attempts)) db.attempts)) [
    | inl clash ↦ rw clash (Pointwise-refl _ v.bounded)
    | inr free ↦ rw free (
        (take_job-Safe j.id 0
            (record db { attempts = db.attempts ++ new_attempt c j db.attempts ∷ [] }) c).rows
          v)
  ];
}

-- Claiming advances the rows: only the claimed job changes, from queued to running.
pub claim_next-Safe : (type : JobType) (c : Claim) (db : Db) → Safe (claim_next type c) db
unfolding claim_next
claim_next-Safe type c db = record {
  rows = (claim_row-Safe c (first_row (claimable type) db.jobs) db).rows;
}
