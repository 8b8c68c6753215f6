-- ===== src/Jobs/Dedup.antt =====
-- `enqueue_or_get` of jobs/repository.py: when a second call for the same work finds the first job,
-- and when it does not.
use ppt_video_workbench_v.Base.{
  ◌≡◌, refl, inl, inr, String, List, [], ◌∷◌, ◌++◌, Option, none, some, Bool, true, false, ◌&&◌,
  ◌||◌, ◌==◌, any, find, str_eq, is_empty, arith, Bool-cases, ==_refl, eq_refl,
}
use ppt_video_workbench_v.Jobs.Status.{JobType, queued, same_type}
use ppt_video_workbench_v.Jobs.Record.{Job, valid_job}
use ppt_video_workbench_v.Jobs.Store.{Db, ok, err, integrity}
use ppt_video_workbench_v.Jobs.Enqueue.{
  JobSpec, Draw, wanted, new_row, clashes, insert_job, retry_key, reusable, same_key,
  enqueue_or_get,
}

type_itself : (t : JobType) → same_type t t ≡ true
type_itself t = ground arith

-- The key test holds of a row that has the cache key of the spec.
key_itself :
    (o : Option String) (key : String) (j : Job) → j.cache_key ≡ key → same_key o key j ≡ true
key_itself none key j e = rw e (eq_refl key)
key_itself (some k) key j e = elim (Bool-cases (is_empty k)) [
  | inl t ↦ rw (t, e) (eq_refl key)
  | inr f ↦ rw (f, e, eq_refl key) (or_true _)
]
  where
    or_true : (b : Bool) → (b || true) ≡ true
    or_true b = ground arith

wanted_new : (spec : JobSpec) (draw : Draw) → wanted spec (new_row spec spec.cache_key draw) ≡ true
unfolding wanted new_row
wanted_new spec draw =
    rw (==_refl spec.project_id, type_itself spec.job_type)
      (key_itself spec.idempotency_key spec.cache_key
        (unfold new_row in new_row spec spec.cache_key draw) refl)

find_last :
    (p : Job → Bool) (xs : List Job) (j : Job)
    → find p xs ≡ none
    → p j ≡ true
    → find p (xs ++ j ∷ []) ≡ some j
find_last p [] j h t = rw t
find_last p (x ∷ xs) j h t = ground (arith, find_last p xs j)

find_kept :
    (p : Job → Bool) (xs : List Job) (new j : Job)
    → find p xs ≡ some j
    → find p (xs ++ new ∷ []) ≡ some j
find_kept p [] new j h = absurd (cc h)
find_kept p (x ∷ xs) new j h = ground (arith, find_kept p xs new j)

-- The tables with one more job.
abbrev pub with_job : Job → Db → Db
with_job new db = record db { jobs = db.jobs ++ new ∷ [] }

insert_lem :
    (new : Job) (db : Db)
    → any (clashes db.migrated new) db.jobs ≡ false
    → valid_job new ≡ true
    → insert_job new db ≡ (ok (record { job = new; created = true }), with_job new db)
unfolding insert_job
insert_lem new db c w = rw (c, w)

-- If no row answers the spec, and the new row is valid and breaks no uniqueness (of its id, of its
-- cache key in the project and, in a workspace migrated from schema 1, of the project's active
-- export job), then the first call adds it and any later call for the spec, on those tables,
-- returns that same job, adds nothing and changes nothing, whatever ids it draws.
pub enqueue_once :
    (spec : JobSpec) (reuse again : Bool) (first second : Draw) (db : Db)
    → find (wanted spec) db.jobs ≡ none
    → any (clashes db.migrated (new_row spec spec.cache_key first)) db.jobs ≡ false
    → valid_job (new_row spec spec.cache_key first) ≡ true
    → (enqueue_or_get spec reuse first db ≡ (
      ok (record { job = new_row spec spec.cache_key first; created = true }),
      with_job (new_row spec spec.cache_key first) db,
    ))
      × (enqueue_or_get spec again second (with_job (new_row spec spec.cache_key first) db) ≡ (
        ok (record { job = new_row spec spec.cache_key first; created = false }),
        with_job (new_row spec spec.cache_key first) db,
      ))
unfolding enqueue_or_get
enqueue_once spec reuse again first second db h c w = (
  rw h (insert_lem _ db c w),
  rw (find_last (wanted spec) db.jobs (new_row spec spec.cache_key first) h (wanted_new spec first))
      (rw w refl),
)

-- The row that a retry inserts.
abbrev pub retry_row : JobSpec → Draw → Job
retry_row spec draw = new_row spec (retry_key spec draw) draw

-- For a spec without an idempotency key, where the row of its type with its cache key has ended
-- and may not be reused (it failed, was cancelled, waits for confirmation, or succeeded and reuse
-- is off), and the two rows that two calls would add are valid and break no uniqueness (which in a
-- workspace migrated from schema 1 the second export job of a project would do), each call adds
-- another job: the second call does not find the first one's job, although that is still queued
-- for the same work.
pub retries_pile_up :
    (spec : JobSpec) (reuse : Bool) (first second : Draw) (db : Db) (old : Job)
    → spec.idempotency_key ≡ none
    → find (wanted spec) db.jobs ≡ some old
    → valid_job old ≡ true
    → reusable reuse old ≡ false
    → any (clashes db.migrated (retry_row spec first)) db.jobs ≡ false
    → valid_job (retry_row spec first) ≡ true
    → any (clashes db.migrated (retry_row spec second)) (with_job (retry_row spec first) db).jobs
      ≡ false
    → valid_job (retry_row spec second) ≡ true
    → (enqueue_or_get spec reuse first db ≡ (
      ok (record { job = retry_row spec first; created = true }),
      with_job (retry_row spec first) db,
    ))
      × (enqueue_or_get spec reuse second (with_job (retry_row spec first) db) ≡ (
        ok (record { job = retry_row spec second; created = true }),
        with_job (retry_row spec second) (with_job (retry_row spec first) db),
      ))
      × ((retry_row spec first).status ≡ queued)
      × ((retry_row spec second).status ≡ queued)
unfolding enqueue_or_get
retries_pile_up spec reuse first second db old k h w r c v d u = (
  rw (h, w, r) (insert_lem _ db c v),
  rw (find_kept (wanted spec) db.jobs (retry_row spec first) old h, w, r)
      (insert_lem _ (with_job (retry_row spec first) db) d u),
  refl,
  refl,
)

any_clash :
    (migrated : Bool) (spec : JobSpec) (draw : Draw) (xs : List Job)
    → any (λ j. (j.project_id == spec.project_id) && str_eq j.cache_key spec.cache_key) xs ≡ true
    → any (clashes migrated (new_row spec spec.cache_key draw)) xs ≡ true
unfolding clashes new_row
any_clash migrated spec draw [] t = t
any_clash migrated spec draw (x ∷ xs) t = ground (arith, any_clash migrated spec draw xs)

-- If some job of the project has the cache key of the spec, but none answers the spec (such a job
-- is then of another type), the call raises an integrity error and adds nothing.
pub other_type_fails :
    (spec : JobSpec) (reuse : Bool) (draw : Draw) (db : Db)
    → find (wanted spec) db.jobs ≡ none
    → any (λ j. (j.project_id == spec.project_id) && str_eq j.cache_key spec.cache_key) db.jobs
      ≡ true
    → enqueue_or_get spec reuse draw db ≡ (err integrity, db)
unfolding enqueue_or_get
other_type_fails spec reuse draw db h s = rw h (rw (any_clash db.migrated spec draw db.jobs s))
