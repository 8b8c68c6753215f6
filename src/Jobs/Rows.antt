-- ===== src/Jobs/Rows.antt =====
-- The rows that mark_running and record_attempt of jobs/repository.py return are those in the
-- table.
use ppt_video_workbench_v.Base.{
  ℕ, ◌+◌, ◌≡◌, refl, sym, ap, ◌∙◌, String, Option, none, some, true, ◌&&◌, ◌==◌, count_where,
  count_where-found, find-update_found, find-key, arith, Bool-cases, inl, inr,
}
use ppt_video_workbench_v.Jobs.Status.{JobStatus, AttemptStatus, same_status, allowed}
use ppt_video_workbench_v.Jobs.Record.{Job, valid_job}
use ppt_video_workbench_v.Jobs.Store.{Db, M, Result, ok, err, pure, follow, ◌>>◌}
use ppt_video_workbench_v.Jobs.Access.{
  job_of, get, to_record, write, written, status_is, revision_is, moved, sync_attempt,
  attempt_status, close_after, finish_transition, decide_transition, require_expected_revision,
  transition,
}
use ppt_video_workbench_v.Jobs.Control.{mark_running, labelled}
use ppt_video_workbench_v.Jobs.Progress.{tried, record_attempt}
use ppt_video_workbench_v.Jobs.Lifecycle.{Inv, id_of}

-- What a read returns is the row.
read_row : (o : Option Job) (j : Job) → to_record o ≡ ok j → o ≡ some j
read_row none j h = absurd (cc h)
read_row (some x) j h = elim (Bool-cases (valid_job x)) [
  | inl t ↦ ground (arith, rw t at h)
  | inr f ↦ absurd (cc (rw f at h))
]

-- A write that returned returns the row that is then there.
write_row :
    (id : ℕ) (change : Job → Job) (s : Option JobStatus) (r : Option ℕ) (db : Db) (j : Job)
    → (write id change s r db).0 ≡ ok j
    → job_of id (write id change s r db).1 ≡ some j
unfolding write get
write_row id change s r db j h = elim (Bool-cases (count_where (written id s r) db.jobs == 1)) [
  | inl one ↦ rw one (read_row _ j (rw one at h))
  | inr other ↦ absurd (cc (rw other at h))
]

-- And under distinct ids that row is the changed one.
write_changed :
    (id : ℕ) (change : Job → Job) (s : Option JobStatus) (r : Option ℕ) (db : Db) (j old : Job)
    → Inv db.jobs
    → job_of id db ≡ some old
    → ((x : Job) → (change x).id ≡ x.id)
    → (write id change s r db).0 ≡ ok j
    → j ≡ change old
unfolding write get
write_changed id change s r db j old v e k h =
    elim (Bool-cases (count_where (written id s r) db.jobs == 1)) [
      | inl one ↦
          let c =
            count_where-found id_of (λ x. status_is s x && revision_is r x) id db.jobs old
              v.distinct e in
          let hit : written id s r old ≡ true =
            ground (arith, c, find-key id_of id db.jobs old e, one) in
          some_eq (
            sym (read_row _ j (rw one at h))
            ∙ find-update_found id_of (written id s r) change id db.jobs old k e
            ∙ rw hit refl)
      | inr other ↦ absurd (cc (rw other at h))
    ]
  where
    some_eq : {a b : Job} → some a ≡ some b → a ≡ b
    some_eq q = cc

closes :
    (s : Option AttemptStatus) (a : Option ℕ) (now : ℕ) (u : Job) (db : Db)
    → (((sync_attempt s a now >> pure u) db).0 ≡ ok u)
      × (((sync_attempt s a now >> pure u) db).1.jobs ≡ db.jobs)
unfolding sync_attempt
closes none a now u db = (refl, refl)
closes (some s) none now u db = (refl, refl)
closes (some s) (some a) now u db = (refl, refl)

ok_eq : {a b : Job} → ok a ≡ ok b → a ≡ b
ok_eq h = cc

finish_row :
    (id : ℕ) (target : JobStatus) (change : Job → Job) (now : ℕ) (seen : Job) (db : Db) (j : Job)
    → (finish_transition id target change now seen db).0 ≡ ok j
    → job_of id (finish_transition id target change now seen db).1 ≡ some j
unfolding finish_transition
finish_row id target change now seen db j h =
    go (write id (moved target change now) (some seen.status) (some seen.revision) db)
      (λ u k. write_row id (moved target change now) (some seen.status) (some seen.revision) db u k)
      h
  where
    go :
        (r : Result Job × Db)
        → ((u : Job) → r.0 ≡ ok u → job_of id r.1 ≡ some u)
        → (follow (close_after target seen now) r.0 r.1).0 ≡ ok j
        → job_of id (follow (close_after target seen now) r.0 r.1).1 ≡ some j
    go (err e, after) f k = absurd (cc k)
    go (ok u, after) f k =
        let (a, b) = closes (attempt_status target) seen.current_attempt_id now u after in
        rw b (f u refl ∙ ap some (ok_eq (sym a ∙ k)))

pub mark_running_row :
    (id now : ℕ) (db : Db) (j : Job)
    → (mark_running id now db).0 ≡ ok j
    → job_of id (mark_running id now db).1 ≡ some j
unfolding mark_running transition require_expected_revision get
mark_running_row id now db j h =
    go (to_record (job_of id db)) (λ u k. read_row (job_of id db) u k) h
  where
    change : Job → Job
    change = labelled "running" "任务执行中"

    go :
        (r : Result Job)
        → ((u : Job) → r ≡ ok u → job_of id db ≡ some u)
        → (follow (λ seen. decide_transition id JobStatus.running change now seen) r db).0 ≡ ok j
        → job_of id (follow (λ seen. decide_transition id JobStatus.running change now seen) r db).1
          ≡ some j
    go (err e) f k = absurd (cc k)
    go (ok seen) f k = elim (Bool-cases (same_status seen.status JobStatus.running)) [
      | inl t ↦ rw t (f seen refl ∙ ap some (ok_eq (rw t at k)))
      | inr n ↦ elim (Bool-cases (allowed seen.status JobStatus.running)) [
        | inl t ↦ rw (n, t) (finish_row id JobStatus.running change now seen db j (rw (n, t) at k))
        | inr m ↦ absurd (cc (rw (n, m) at k))
      ]
    ]

pub record_attempt_row :
    (id : ℕ) (error : Option String) (now : ℕ) (db : Db) (old j : Job)
    → Inv db.jobs
    → job_of id db ≡ some old
    → (record_attempt id error now db).0 ≡ ok j
    → (job_of id (record_attempt id error now db).1 ≡ some j)
      × (j.attempts ≡ old.attempts + 1)
      × (j.max_attempts ≡ old.max_attempts)
unfolding record_attempt get
record_attempt_row id error now db old j v e h =
    go (to_record (job_of id db)) (λ u k. read_row (job_of id db) u k) h
  where
    next : Job → M Job
    next seen = write id (tried seen error now) none (some seen.revision)

    some_same : {a b : Job} → some a ≡ some b → b ≡ a
    some_same q = cc

    go :
        (r : Result Job)
        → ((u : Job) → r ≡ ok u → job_of id db ≡ some u)
        → (follow next r db).0 ≡ ok j
        → (job_of id (follow next r db).1 ≡ some j)
          × (j.attempts ≡ old.attempts + 1)
          × (j.max_attempts ≡ old.max_attempts)
    go (err x) f k = absurd (cc k)
    go (ok seen) f k =
        let same : seen ≡ old = some_same (sym e ∙ f seen refl) in
        let c =
          write_changed id (tried seen error now) none (some seen.revision) db j old v e (λ x. refl)
            k in
        (
          write_row id (tried seen error now) none (some seen.revision) db j k,
          rw (c, same) refl,
          rw c refl,
        )
