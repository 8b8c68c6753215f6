-- ===== src/Jobs/Outcomes.antt =====
-- What the status requests of jobs/repository.py answer, and leave behind, for a job in each
-- status.
use ppt_video_workbench_v.Base.{
  ℕ, ◌+◌, ◌≡◌, refl, Option, none, some, true, false, ◌&&◌, ◌==◌, find-update_found, find-key, ◌∙◌,
  count_where, count_where-found, update_where, arith, ==_refl,
}
use ppt_video_workbench_v.Jobs.Status.{JobStatus, AttemptStatus, same_status, allowed}
use ppt_video_workbench_v.Jobs.Record.{Job, valid_job}
use ppt_video_workbench_v.Jobs.Store.{Db, Result, ok, err, conflict, pure, ◌>>◌, >>=-ok}
use ppt_video_workbench_v.Jobs.Access.{
  job_of, get, write, written, moved, sync_attempt, attempt_status, finish_transition,
  decide_transition, require_expected_revision, transition,
}
use ppt_video_workbench_v.Jobs.Lifecycle.{Inv, id_of}

-- What a request answers: the row as it is, the row moved to a status, or a conflict.
pub data Answer : Type 0 where
  stays refuses : Answer
  moves : JobStatus → Answer

-- The answer, met by a result and the tables after it: a move gives the row the target status, the
-- next revision and the time, and returns it; anything else leaves every table as it was.
abbrev pub Answers : Answer → Job → ℕ → ℕ → Db → Result Job × Db → Type 0
Answers stays j id now db r = r ≡ (ok j, db)
Answers refuses j id now db r = r ≡ (err conflict, db)
Answers (moves target) j id now db r =
    (b : Job) × (r.0 ≡ ok b)
    × (job_of id r.1 ≡ some b)
    × (b.status ≡ target)
    × (b.revision ≡ j.revision + 1)
    × (b.updated_at ≡ now)

-- The tables after a write that found the row it had read.
abbrev pub rewritten : ℕ → (Job → Job) → Job → Db → Db
rewritten id change seen db = record db {
  jobs = update_where (written id (some seen.status) (some seen.revision)) change db.jobs;
}

status_itself : (s : JobStatus) → same_status s s ≡ true
status_itself s = ground arith

module _ (id : ℕ) (change : Job → Job) (db : Db) (seen : Job) (v : Inv db.jobs)
    (e : job_of id db ≡ some seen) where
  hit_itself : written id (some seen.status) (some seen.revision) seen ≡ true
  hit_itself = ground (arith, find-key id_of id db.jobs seen e, status_itself seen.status)

  count_itself : count_where (written id (some seen.status) (some seen.revision)) db.jobs ≡ 1
  count_itself =
      count_where-found id_of
        (λ j. same_status j.status seen.status && (j.revision == seen.revision)) id db.jobs seen
        v.distinct e
      ∙ rw (status_itself seen.status, ==_refl seen.revision)

  pub job_of-rewritten :
      ((j : Job) → (change j).id ≡ j.id)
      → job_of id (rewritten id change seen db) ≡ some (change seen)
  job_of-rewritten k =
      find-update_found id_of (written id (some seen.status) (some seen.revision)) change id db.jobs
        seen k e
      ∙ rw hit_itself

  -- A guarded write that finds the row as it was read changes that row, and returns it.
  pub write_lem :
      ((j : Job) → (change j).id ≡ j.id)
      → valid_job (change seen) ≡ true
      → write id change (some seen.status) (some seen.revision) db
        ≡ (ok (change seen), rewritten id change seen db)
  unfolding write get
  write_lem k w = rw (count_itself, job_of-rewritten k, w)

closed :
    (s : Option AttemptStatus) (a : Option ℕ) (now : ℕ) (updated : Job) (db : Db)
    → ((sync_attempt s a now >> pure updated) db).0 ≡ ok updated
unfolding sync_attempt
closed none a now updated db = refl
closed (some s) none now updated db = refl
closed (some s) (some a) now updated db = refl

closed_jobs :
    (s : Option AttemptStatus) (a : Option ℕ) (now : ℕ) (updated : Job) (db : Db)
    → ((sync_attempt s a now >> pure updated) db).1.jobs ≡ db.jobs
unfolding sync_attempt
closed_jobs none a now updated db = refl
closed_jobs (some s) none now updated db = refl
closed_jobs (some s) (some a) now updated db = refl

pub get_lem :
    (id : ℕ) (db : Db) (j : Job)
    → job_of id db ≡ some j
    → valid_job j ≡ true
    → get id db ≡ (ok j, db)
unfolding get
get_lem id db j e w = rw (e, w)

pub expected_self :
    (j : Job) (db : Db) → require_expected_revision j (some j.revision) db ≡ (ok tt, db)
unfolding require_expected_revision
expected_self j db = rw (==_refl j.revision)

transition_eq :
    (id : ℕ) (target : JobStatus) (expected : Option ℕ) (change : Job → Job) (now : ℕ) (db : Db)
    (seen : Job)
    → job_of id db ≡ some seen
    → valid_job seen ≡ true
    → require_expected_revision seen expected db ≡ (ok tt, db)
    → transition id target expected change now db ≡ decide_transition id target change now seen db
unfolding transition
transition_eq id target expected change now db seen e w x =
    >>=-ok (get id)
      (λ j. require_expected_revision j expected >> decide_transition id target change now j) db db
      seen (get_lem id db seen e w)
    ∙ >>=-ok (require_expected_revision seen expected)
        (λ _. decide_transition id target change now seen) db db tt x

module _ (id : ℕ) (target : JobStatus) (change : Job → Job) (now : ℕ) (db : Db) (seen : Job)
    (v : Inv db.jobs) (e : job_of id db ≡ some seen) (k : (j : Job) → (change j).id ≡ j.id)
    (w : valid_job (moved target change now seen) ≡ true) where
  finish_moves :
      Answers (moves target) seen id now db (finish_transition id target change now seen db)
  unfolding finish_transition
  finish_moves =
      let new = moved target change now seen in
      let db' = rewritten id (moved target change now) seen db in
      rw (write_lem id (moved target change now) db seen v e k w) (
        new,
        closed (attempt_status target) seen.current_attempt_id now new db',
        rw (closed_jobs (attempt_status target) seen.current_attempt_id now new db')
            (job_of-rewritten id (moved target change now) db seen v e k),
        refl,
        refl,
        refl,
      )

  decided :
      same_status seen.status target ≡ false
      → allowed seen.status target ≡ true
      → Answers (moves target) seen id now db (decide_transition id target change now seen db)
  decided d a = rw (d, a) finish_moves

  -- `_transition` at a job whose status has an edge to the target.
  pub transition_moves :
      (expected : Option ℕ)
      → (require_expected_revision seen expected db ≡ (ok tt, db))
      → valid_job seen ≡ true
      → same_status seen.status target ≡ false
      → allowed seen.status target ≡ true
      → Answers (moves target) seen id now db (transition id target expected change now db)
  transition_moves expected x ok_row d a =
      rw (transition_eq id target expected change now db seen e ok_row x) (decided d a)
