-- ===== src/Jobs/Lifecycle.antt =====
-- How the rows of `jobs` may change: the relation between the table before and after one method
-- of JobRepository, the invariant of the table, and the rules by which a method keeps both.
use ppt_video_workbench_v.Base.{
  ℕ, ◌≤◌, ◌<◌, ◌≡◌, ◌⊎◌, inl, inr, refl, List, [], ◌∷◌, none, Bool, true, ◌&&◌, ◌||◌, ◌==◌, find,
  All, Distinct, update_where, arith, Bool-cases,
}
use ppt_video_workbench_v.Jobs.Status.{JobStatus, queued, running, paused, same_status, allowed}
use ppt_video_workbench_v.Jobs.Record.{Job, whole}

-- The moves of a status: none, one of the graph, or the restart of an interrupted job.
unfoldable pub lifecycle : JobStatus → JobStatus → Bool
unfolding allowed
lifecycle a b = same_status a b || (allowed a b || (same_status a running && same_status b paused))

-- What one method may make of a row: its identity stays, its status moves along the lifecycle,
-- its progress and attempts do not fall, and a row that changes has a greater revision.
pub record Advances (a b : Job) : Type 0 where
  pub same_id : b.id ≡ a.id
  pub same_project : b.project_id ≡ a.project_id
  pub same_job_type : b.job_type ≡ a.job_type
  pub same_cache_key : b.cache_key ≡ a.cache_key
  pub same_paid : b.paid ≡ a.paid
  pub same_limit : b.max_attempts ≡ a.max_attempts
  pub same_creation : b.created_at ≡ a.created_at
  pub status_moves : lifecycle a.status b.status ≡ true
  pub progress_grows : a.progress ≤ b.progress
  pub progress_bounded : b.progress ≤ whole
  pub attempts_grow : a.attempts ≤ b.attempts
  pub stamped : (b ≡ a) ⊎ (a.revision < b.revision)

pub Advances-refl : (a : Job) → a.progress ≤ whole → Advances a a
unfolding lifecycle
Advances-refl a h = record {
  same_id = refl;
  same_project = refl;
  same_job_type = refl;
  same_cache_key = refl;
  same_paid = refl;
  same_limit = refl;
  same_creation = refl;
  status_moves = ground arith;
  progress_grows = omega arith;
  progress_bounded = h;
  attempts_grow = omega arith;
  stamped = inl refl;
}

-- A row that `enqueue_or_get` adds.
pub record IsNew (j : Job) : Type 0 where
  pub is_queued : j.status ≡ queued
  pub at_start : j.progress ≡ 0
  pub untried : j.attempts ≡ 0
  pub first_revision : j.revision ≡ 1

-- Row by row, with new rows at the end.
abbrev pub Evolves : List Job → List Job → Type 0
Evolves [] ys = All IsNew ys
Evolves (x ∷ xs) [] = ⊥
Evolves (x ∷ xs) (y ∷ ys) = Advances x y × Evolves xs ys

abbrev pub id_of : Job → ℕ
id_of j = j.id

-- Ids are distinct, and no progress passes 1.0.
pub record Inv (jobs : List Job) : Type 0 where
  pub distinct : Distinct id_of jobs
  pub bounded : All (λ j. j.progress ≤ whole) jobs

-- Old rows keep their ids, so the invariant follows from the relation where no row was added.
abbrev pub Pointwise : List Job → List Job → Type 0
Pointwise [] [] = Unit
Pointwise [] (y ∷ ys) = ⊥
Pointwise (x ∷ xs) [] = ⊥
Pointwise (x ∷ xs) (y ∷ ys) = Advances x y × Pointwise xs ys

pub Pointwise-refl : (xs : List Job) → All (λ j. j.progress ≤ whole) xs → Pointwise xs xs
Pointwise-refl [] h = tt
Pointwise-refl (x ∷ xs) h = (Advances-refl x h.0, Pointwise-refl xs h.1)

-- An UPDATE all of whose hits advance.
pub update_where-Pointwise :
    (hit : Job → Bool) (change : Job → Job) (xs : List Job)
    → All (λ j. j.progress ≤ whole) xs
    → All (λ j. hit j ≡ true → Advances j (change j)) xs
    → Pointwise xs (update_where hit change xs)
update_where-Pointwise hit change [] b h = tt
update_where-Pointwise hit change (x ∷ xs) b h = elim (Bool-cases (hit x)) [
  | inl e ↦ rw e (h.0 e, update_where-Pointwise hit change xs b.1 h.1)
  | inr e ↦ rw e (Advances-refl x b.0, update_where-Pointwise hit change xs b.1 h.1)
]

Pointwise-find :
    (k : ℕ) (xs ys : List Job)
    → Pointwise xs ys
    → find (λ j. j.id == k) xs ≡ none
    → find (λ j. j.id == k) ys ≡ none
Pointwise-find k [] [] p h = refl
Pointwise-find k [] (y ∷ ys) p h = absurd p
Pointwise-find k (x ∷ xs) [] p h = absurd p
Pointwise-find k (x ∷ xs) (y ∷ ys) p h = ground (arith, p.0.same_id, Pointwise-find k xs ys p.1)

pub Pointwise-Inv : (xs ys : List Job) → Pointwise xs ys → Inv xs → Inv ys
Pointwise-Inv [] [] p v = v
Pointwise-Inv [] (y ∷ ys) p v = absurd p
Pointwise-Inv (x ∷ xs) [] p v = absurd p
Pointwise-Inv (x ∷ xs) (y ∷ ys) p v =
    let rest : Inv ys =
      Pointwise-Inv xs ys p.1 (record { distinct = v.distinct.1; bounded = v.bounded.1 }) in
    record {
      distinct = (rw p.0.same_id (Pointwise-find x.id xs ys p.1 v.distinct.0), rest.distinct);
      bounded = (p.0.progress_bounded, rest.bounded);
    }

pub Pointwise-Evolves : (xs ys : List Job) → Pointwise xs ys → Evolves xs ys
Pointwise-Evolves [] [] p = tt
Pointwise-Evolves [] (y ∷ ys) p = absurd p
Pointwise-Evolves (x ∷ xs) [] p = absurd p
Pointwise-Evolves (x ∷ xs) (y ∷ ys) p = (p.0, Pointwise-Evolves xs ys p.1)
