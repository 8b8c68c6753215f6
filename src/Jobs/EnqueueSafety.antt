-- ===== src/Jobs/EnqueueSafety.antt =====
-- `enqueue_or_get` of jobs/repository.py keeps the invariant; the only row it may add is a new one.
use ppt_video_workbench_v.Base.{
  ℕ, ◌≤◌, ◌≡◌, refl, inl, inr, String, List, [], ◌∷◌, ◌++◌, Option, none, some, Bool, false, ◌==◌,
  any, All, find, Distinct, arith, Bool-cases,
}
use ppt_video_workbench_v.Jobs.Record.{Job, whole, valid_job}
use ppt_video_workbench_v.Jobs.Store.{Db}
use ppt_video_workbench_v.Jobs.Enqueue.{
  JobSpec, Draw, new_row, clashes, insert_job, reusable, enqueue_beside, wanted, enqueue_or_get,
}
use ppt_video_workbench_v.Jobs.Lifecycle.{
  Evolves, Inv, IsNew, id_of, Advances-refl, Pointwise-refl, Pointwise-Evolves,
}

pub new_row-IsNew : (spec : JobSpec) (key : String) (draw : Draw) → IsNew (new_row spec key draw)
unfolding new_row
new_row-IsNew spec key draw = record {
  is_queued = refl;
  at_start = refl;
  untried = refl;
  first_revision = refl;
}

append-Evolves :
    (new : Job) (xs : List Job)
    → All (λ j. j.progress ≤ whole) xs
    → IsNew new
    → Evolves xs (xs ++ new ∷ [])
append-Evolves new [] b n = (n, tt)
append-Evolves new (x ∷ xs) b n = (Advances-refl x b.0, append-Evolves new xs b.1 n)

free_id :
    (migrated : Bool) (new : Job) (xs : List Job)
    → any (clashes migrated new) xs ≡ false
    → All (λ j. (new.id == j.id) ≡ false) xs
unfolding clashes
free_id migrated new [] h = tt
free_id migrated new (x ∷ xs) h = (ground arith, free_id migrated new xs (ground arith))

find_append :
    (new : Job) (k : ℕ) (xs : List Job)
    → find (λ j. j.id == k) xs ≡ none
    → (new.id == k) ≡ false
    → find (λ j. j.id == k) (xs ++ new ∷ []) ≡ none
find_append new k [] h f = rw f
find_append new k (x ∷ xs) h f = ground (arith, find_append new k xs)

append-Distinct :
    (new : Job) (xs : List Job)
    → All (λ j. (new.id == j.id) ≡ false) xs
    → Distinct id_of xs
    → Distinct id_of (xs ++ new ∷ [])
append-Distinct new [] f d = (refl, tt)
append-Distinct new (x ∷ xs) f d = (find_append new x.id xs d.0 f.0, append-Distinct new xs f.1 d.1)

append-bounded :
    (new : Job) (xs : List Job)
    → new.progress ≤ whole
    → All (λ j. j.progress ≤ whole) xs
    → All (λ j. j.progress ≤ whole) (xs ++ new ∷ [])
append-bounded new [] n b = (n, tt)
append-bounded new (x ∷ xs) n b = (b.0, append-bounded new xs n b.1)

-- One call, run on the state, keeps the invariant and lets the rows evolve.
pub record Extends (before after : List Job) : Type 0 where
  pub inv : Inv after
  pub rows : Evolves before after

same-Extends : (db : Db) → Inv db.jobs → Extends db.jobs db.jobs
same-Extends db v = record {
  inv = v;
  rows = Pointwise-Evolves _ _ (Pointwise-refl db.jobs v.bounded);
}

insert_job-Extends :
    (new : Job) (db : Db) → IsNew new → Inv db.jobs → Extends db.jobs (insert_job new db).1.jobs
unfolding insert_job
insert_job-Extends new db n v = elim (Bool-cases (any (clashes db.migrated new) db.jobs)) [
  | inl c ↦ rw c (same-Extends db v)
  | inr c ↦ rw c (record {
    inv = record {
      distinct = append-Distinct new db.jobs (free_id db.migrated new db.jobs c) v.distinct;
      bounded = append-bounded new db.jobs (omega (arith, n.at_start)) v.bounded;
    };
    rows = append-Evolves new db.jobs v.bounded n;
  })
]

beside-Extends :
    (spec : JobSpec) (reuse : Bool) (draw : Draw) (o : Option Job) (db : Db)
    → Inv db.jobs
    → Extends db.jobs (enqueue_beside spec reuse draw o db).1.jobs
beside-Extends spec reuse draw none db v = insert_job-Extends _ db (new_row-IsNew _ _ _) v
beside-Extends spec reuse draw (some old) db v = elim (Bool-cases (valid_job old)) [
  | inl ok_row ↦ elim (Bool-cases (reusable reuse old)) [
    | inl r ↦ rw (ok_row, r) (same-Extends db v)
    | inr r ↦ rw (ok_row, r) (insert_job-Extends _ db (new_row-IsNew _ _ _) v)
  ]
  | inr bad ↦ rw bad (same-Extends db v)
]

pub enqueue_or_get-Extends :
    (spec : JobSpec) (reuse : Bool) (draw : Draw) (db : Db)
    → Inv db.jobs
    → Extends db.jobs (enqueue_or_get spec reuse draw db).1.jobs
unfolding enqueue_or_get
enqueue_or_get-Extends spec reuse draw db v =
    beside-Extends spec reuse draw (find (wanted spec) db.jobs) db v
