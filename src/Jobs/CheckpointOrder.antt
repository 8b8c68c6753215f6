-- ===== src/Jobs/CheckpointOrder.antt =====
-- Checkpoint sequences in jobs/repository.py: each new checkpoint of a job is past all before it.
use ppt_video_workbench_v.Base.{
  ℕ, ◌≤◌, ◌<◌, ◌≡◌, refl, ap, ◌∙◌, inl, inr, String, List, [], ◌∷◌, ◌++◌, Option, none, some, true,
  false, All, arith, Bool-cases, value_or, le_trans, subst, sym,
}
use ppt_video_workbench_v.Jobs.Record.{Attempt, CheckpointRow}
use ppt_video_workbench_v.Jobs.Store.{Db, Result, ok, ◌>>=◌, >>=-returned}
use ppt_video_workbench_v.Jobs.Checkpoints.{
  of_job, later, last_row, latest_checkpoint, next_sequence, not_after, CheckpointArgs,
  insert_checkpoint, checkpoint_row, append_after, record_checkpoint, require_attempt, either_id,
  attempt_id_of,
}
use ppt_video_workbench_v.Jobs.Access.{current_attempt}
use ppt_video_workbench_v.Jobs.ProgressSafety.{current_attempt-reads}
use ppt_video_workbench_v.Jobs.TableSafety.{latest_checkpoint-reads, require_attempt-reads}

-- All checkpoints of the job are before the sequence.
abbrev pub Before : ℕ → ℕ → List CheckpointRow → Type 0
Before id n xs = All (λ x. of_job id x ≡ true → x.sequence < n) xs

Before-mono : (id n m : ℕ) (xs : List CheckpointRow) → n ≤ m → Before id n xs → Before id m xs
Before-mono id n m [] l h = tt
Before-mono id n m (x ∷ xs) l h = (λ t. le_trans (h.0 t) l, Before-mono id n m xs l h.1)

-- What is past the last row of a job is past all its rows.
last_row-Before :
    (id n : ℕ) (xs : List CheckpointRow) → not_after n (last_row id xs) ≡ false → Before id n xs
unfolding last_row
last_row-Before id n [] h = tt
last_row-Before id n (x ∷ xs) h = elim (Bool-cases (of_job id x)) [
  | inl t ↦ go (last_row id xs) (rw t at h) (last_row-Before id n xs)
  | inr f ↦ (λ t. absurd (cc f), last_row-Before id n xs (rw f at h))
]
  where
    go :
        (o : Option CheckpointRow)
        → not_after n (some (later x o)) ≡ false
        → (not_after n o ≡ false → Before id n xs)
        → Before id n (x ∷ xs)
    go none k ih = (λ t. ground arith, ih refl)
    go (some d) k ih = (λ t. ground arith, ih (ground arith))

-- What one call appends.
pub record Appends (id : ℕ) (db : Db) (c : CheckpointRow) (after : Db) : Type 0 where
  pub of_the_job : c.job_id ≡ id
  pub past : Before id c.sequence db.checkpoints
  pub appended : after.checkpoints ≡ db.checkpoints ++ c ∷ []
  pub jobs_kept : after.jobs ≡ db.jobs

inserted :
    (new c : CheckpointRow) (db : Db)
    → (insert_checkpoint new db).0 ≡ ok c
    → (c ≡ new)
      × ((insert_checkpoint new db).1.checkpoints ≡ db.checkpoints ++ new ∷ [])
      × ((insert_checkpoint new db).1.jobs ≡ db.jobs)
unfolding insert_checkpoint
inserted new c db h = ground arith

module _ (sha256 : String → String) (id : ℕ) (args : CheckpointArgs) (now : ℕ) (db : Db) where
  append_after-Appends :
      (attempt : ℕ) (c : CheckpointRow)
      → (append_after sha256 id args now attempt (last_row id db.checkpoints) db).0 ≡ ok c
      → Appends id db c (append_after sha256 id args now attempt (last_row id db.checkpoints) db).1
  append_after-Appends attempt c h =
      let existing = last_row id db.checkpoints in
      let n = value_or args.sequence (next_sequence existing) in
      elim (Bool-cases (not_after n existing)) [
        | inl bad ↦ absurd (cc (rw bad at h))
        | inr fine ↦
            let (e, a, k) =
              inserted (checkpoint_row sha256 id args now attempt existing) c db (rw fine at h) in
            rw fine (record {
              of_the_job = ap (λ (x : CheckpointRow). x.job_id) e;
              past =
                  rw (ap (λ (x : CheckpointRow). x.sequence) e)
                    (last_row-Before id n db.checkpoints fine);
              appended = rw e a;
              jobs_kept = k;
            })
      ]

  latest_is_last :
      (existing : Option CheckpointRow)
      → (latest_checkpoint id db).0 ≡ ok existing
      → existing ≡ last_row id db.checkpoints
  unfolding latest_checkpoint
  latest_is_last existing h = ground arith

  -- When recording a checkpoint returns, the checkpoint is of that job, its sequence is greater
  -- than that of every earlier checkpoint of the job, it is the one row appended, and no job
  -- changes.
  pub record_checkpoint-Appends :
      (c : CheckpointRow)
      → (record_checkpoint sha256 id args now db).0 ≡ ok c
      → Appends id db c (record_checkpoint sha256 id args now db).1
  unfolding record_checkpoint
  record_checkpoint-Appends c h =
      let last = λ (a : ℕ). latest_checkpoint id >>= append_after sha256 id args now a in
      let opens = λ (o : Option Attempt).
        require_attempt (either_id args.attempt_id (attempt_id_of o)) >>= last in
      let (o, _, e) =
        >>=-returned (current_attempt id) opens db c (current_attempt-reads id now db) h in
      let (a, _, f) =
        >>=-returned (require_attempt (either_id args.attempt_id (attempt_id_of o))) last db c
          (require_attempt-reads (either_id args.attempt_id (attempt_id_of o)) db)
          (sym (ap (λ (r : Result CheckpointRow × Db). r.0) e) ∙ h) in
      let (x, g, k) =
        >>=-returned (latest_checkpoint id) (append_after sha256 id args now a) db c
          (latest_checkpoint-reads id db)
          (sym (ap (λ (r : Result CheckpointRow × Db). r.0) (e ∙ f)) ∙ h) in
      let whole : record_checkpoint sha256 id args now db
          ≡ append_after sha256 id args now a (last_row id db.checkpoints) db =
        e
        ∙ f
        ∙ k
        ∙ ap (λ (y : Option CheckpointRow). append_after sha256 id args now a y db)
            (latest_is_last x g) in
      subst (λ (r : Result CheckpointRow × Db). Appends id db c r.1) (sym whole)
        (append_after-Appends a c (sym (ap (λ (r : Result CheckpointRow × Db). r.0) whole) ∙ h))
