-- ===== src/Jobs/Histories.antt =====
-- Runs of JobRepository calls: what holds of a job whatever is called, in whatever order.
use ppt_video_workbench_v.Base.{
  ℕ, ◌≤◌, ◌<◌, ◌≡◌, ◌⊎◌, inl, inr, refl, sym, subst, ◌∙◌, String, List, [], ◌∷◌, some, true, ◌==◌,
  find, arith, Bool-cases,
}
use ppt_video_workbench_v.Jobs.Status.{JobStatus, allowed, is_terminal}
use ppt_video_workbench_v.Jobs.Record.{Job}
use ppt_video_workbench_v.Jobs.Store.{Db}
use ppt_video_workbench_v.Jobs.Access.{job_of}
use ppt_video_workbench_v.Jobs.Lifecycle.{lifecycle, Advances, Evolves, Inv}
use ppt_video_workbench_v.Jobs.Safety.{some_eq}
use ppt_video_workbench_v.Jobs.Calls.{Call, step, run, step-Extends}

-- What any number of calls may make of a row.
pub record Descends (a b : Job) : Type 0 where
  pub same_project : b.project_id ≡ a.project_id
  pub same_cache_key : b.cache_key ≡ a.cache_key
  pub same_limit : b.max_attempts ≡ a.max_attempts
  pub progress_grows : a.progress ≤ b.progress
  pub attempts_grow : a.attempts ≤ b.attempts
  pub revision_grows : a.revision ≤ b.revision
  pub unchanged : b.revision ≡ a.revision → b ≡ a
  pub settled : is_terminal a.status ≡ true → b.status ≡ a.status

terminal_lifecycle : (a b : JobStatus) → is_terminal a ≡ true → lifecycle a b ≡ true → b ≡ a
unfolding lifecycle allowed
terminal_lifecycle a b t h = ground arith

Descends-refl : (a : Job) → Descends a a
Descends-refl a = record {
  same_project = refl;
  same_cache_key = refl;
  same_limit = refl;
  progress_grows = omega arith;
  attempts_grow = omega arith;
  revision_grows = omega arith;
  unchanged = λ _. refl;
  settled = λ _. refl;
}

Advances-Descends : {a b : Job} → Advances a b → Descends a b
Advances-Descends {a} {b} h = record {
  same_project = h.same_project;
  same_cache_key = h.same_cache_key;
  same_limit = h.same_limit;
  progress_grows = h.progress_grows;
  attempts_grow = h.attempts_grow;
  revision_grows = go h.stamped;
  unchanged = still h.stamped;
  settled = λ t. terminal_lifecycle a.status b.status t h.status_moves;
}
  where
    go : (b ≡ a) ⊎ (a.revision < b.revision) → a.revision ≤ b.revision
    go (inl e) = rw e (omega arith)
    go (inr l) = omega arith

    still : (b ≡ a) ⊎ (a.revision < b.revision) → b.revision ≡ a.revision → b ≡ a
    still (inl e) r = e
    still (inr l) r = absurd (omega arith)

Descends-trans : {a b c : Job} → Descends a b → Descends b c → Descends a c
Descends-trans {a} {b} {c} h k = record {
  same_project = k.same_project ∙ h.same_project;
  same_cache_key = k.same_cache_key ∙ h.same_cache_key;
  same_limit = k.same_limit ∙ h.same_limit;
  progress_grows = omega arith;
  attempts_grow = omega arith;
  revision_grows = omega arith;
  unchanged = λ e. k.unchanged (omega arith) ∙ h.unchanged (omega arith);
  settled = λ t. k.settled (rw (h.settled t) t) ∙ h.settled t;
}

Evolves-find :
    (k : ℕ) (xs ys : List Job) (a : Job)
    → Evolves xs ys
    → find (λ j. j.id == k) xs ≡ some a
    → (b : Job) × (find (λ j. j.id == k) ys ≡ some b) × Advances a b
Evolves-find k [] ys a e h = absurd (cc h)
Evolves-find k (x ∷ xs) [] a e h = absurd e
Evolves-find k (x ∷ xs) (y ∷ ys) a e h = elim (Bool-cases (x.id == k)) [
  | inl hit ↦
      (y, rw (e.0.same_id, hit), subst (λ j. Advances j y) (sym (some_eq (rw hit at h))) e.0)
  | inr miss ↦
      let (b, p, q) = Evolves-find k xs ys a e.1 (rw miss at h) in (b, rw (e.0.same_id, miss) p, q)
]

-- From tables whose job ids are distinct and whose progress is within 1.0: whatever calls are made
-- in whatever order, a job that exists is still found under its id, of the same project, cache key
-- and attempt limit; its progress, attempts and revision have not fallen; if its revision is the
-- same then so is the whole row; and if its status was succeeded, failed or cancelled then it still
-- is.
pub run-Descends :
    (sha256 : String → String) (db : Db) (cs : List Call) (id : ℕ) (a : Job)
    → Inv db.jobs
    → job_of id db ≡ some a
    → (b : Job) × (job_of id (run sha256 db cs) ≡ some b) × Descends a b
unfolding run
run-Descends f db [] id a v e = (a, e, Descends-refl a)
run-Descends f db (c ∷ cs) id a v e =
    let s = step-Extends f db c v in
    let (b, p, q) = Evolves-find id db.jobs (step f db c).jobs a s.rows e in
    let (d, r, t) = run-Descends f (step f db c) cs id b s.inv p in
    (d, r, Descends-trans (Advances-Descends q) t)
