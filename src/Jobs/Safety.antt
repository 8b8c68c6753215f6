-- ===== src/Jobs/Safety.antt =====
-- The rules by which a method of JobRepository keeps the invariant of `jobs` and advances its rows.
use ppt_video_workbench_v.Base.{
  ℕ, ◌≤◌, ◌≡◌, ◌⊎◌, inl, inr, refl, List, [], ◌∷◌, Option, none, some, Bool, true, false, ◌==◌,
  find, All, Distinct, count_where, if◌then◌else◌, arith, subst, ==_iff, Bool-cases, Option-cases,
  and-eq_true,
}
use ppt_video_workbench_v.Jobs.Status.{JobStatus, AttemptStatus, allowed, same_status}
use ppt_video_workbench_v.Jobs.Record.{Job, whole, valid_job}
use ppt_video_workbench_v.Jobs.Store.{
  Db, M, Result, ok, err, JobError, conflict, pure, raise, refuse_if, follow, ◌>>=◌, ◌>>◌,
}
use ppt_video_workbench_v.Jobs.Access.{
  job_of, get, write, written, status_is, revision_is, moved, sync_attempt, attempt_status,
  finish_transition, decide_transition, close_after, require_expected_revision, transition,
}
use ppt_video_workbench_v.Jobs.Lifecycle.{
  lifecycle, Advances, Evolves, Pointwise, Inv, id_of, Pointwise-refl, Pointwise-Inv,
  Pointwise-Evolves, update_where-Pointwise,
}

-- The method, run on the state, changes the rows of `jobs` in step, adding none.
pub record Safe {A : Type 0} (m : M A) (db : Db) : Type 0 where
  pub rows : Inv db.jobs → Pointwise db.jobs (m db).1.jobs

pub Safe-Inv : {A : Type 0} {m : M A} {db : Db} → Safe m db → Inv db.jobs → Inv (m db).1.jobs
Safe-Inv s v = Pointwise-Inv _ _ (s.rows v) v

pub Safe-Evolves :
    {A : Type 0} {m : M A} {db : Db} → Safe m db → Inv db.jobs → Evolves db.jobs (m db).1.jobs
Safe-Evolves s v = Pointwise-Evolves _ _ (s.rows v)

-- A method that leaves `jobs` alone.
pub record Quiet {A : Type 0} (m : M A) (db : Db) : Type 0 where
  pub kept : (m db).1.jobs ≡ db.jobs

pub Quiet-Safe : {A : Type 0} {m : M A} {db : Db} → Quiet m db → Safe m db
Quiet-Safe q = record { rows = λ v. rw q.kept (Pointwise-refl _ v.bounded) }

pub pure-Quiet : {A : Type 0} (a : A) (db : Db) → Quiet (pure a) db
pure-Quiet a db = record { kept = refl }

pub raise-Quiet : {A : Type 0} (e : JobError) (db : Db) → Quiet (raise {A = A} e) db
raise-Quiet e db = record { kept = refl }

-- After a refusal that did not happen.
pub refuse-Safe :
    {A : Type 0} (b : Bool) (e : JobError) (m : M A) (db : Db)
    → (b ≡ false → Safe m db)
    → Safe (refuse_if b e >> m) db
refuse-Safe true e m db h = Quiet-Safe (record { kept = refl })
refuse-Safe false e m db h = record { rows = (h refl).rows }

pub if-Safe :
    {A : Type 0} (b : Bool) (m n : M A) (db : Db)
    → (b ≡ true → Safe m db)
    → (b ≡ false → Safe n db)
    → Safe (if b then m else n) db
if-Safe true m n db h k = h refl
if-Safe false m n db h k = k refl

pub expected-Safe :
    {A : Type 0} (seen : Job) (expected : Option ℕ) (m : M A) (db : Db)
    → Safe m db
    → Safe (require_expected_revision seen expected >> m) db
unfolding require_expected_revision
expected-Safe seen none m db h = record { rows = h.rows }
expected-Safe seen (some r) m db h = refuse-Safe _ _ m db (λ _. h)

-- What `get` returns is the row of that id, and is valid.
get-cases :
    (id : ℕ) (db : Db)
    → ((e : JobError) × (get id db ≡ (err e, db)))
      ⊎ ((j : Job) × (get id db ≡ (ok j, db)) × (job_of id db ≡ some j) × (valid_job j ≡ true))
unfolding get
get-cases id db = elim (Option-cases (job_of id db)) [
  | inl e ↦ inl (JobError.not_found, rw e)
  | inr (j, e) ↦ elim (Bool-cases (valid_job j)) [
    | inl v ↦ inr (j, rw (e, v), e, v)
    | inr v ↦ inl (JobError.validation, rw (e, v))
  ]
]

pub get-Safe :
    {A : Type 0} (id : ℕ) (f : Job → M A) (db : Db)
    → ((j : Job) → job_of id db ≡ some j → valid_job j ≡ true → Safe (f j) db)
    → Safe (get id >>= f) db
get-Safe id f db h = elim (get-cases id db) [
  | inl (e, p) ↦ record { rows = λ v. rw p (Pointwise-refl _ v.bounded) }
  | inr (j, p, q, w) ↦ record { rows = λ v. rw p ((h j q w).rows v) }
]

pub follow-reads :
    {A B : Type 0} (f : A → M B) (r : Result A) (db' db : Db)
    → db' ≡ db
    → ((a : A) → (f a db).1 ≡ db)
    → (follow f r db').1 ≡ db
follow-reads f (ok a) db' db s h = rw s (h a)
follow-reads f (err e) db' db s h = s

-- A method that only reads, before another.
pub read-Safe :
    {A B : Type 0} (m : M A) (f : A → M B) (db : Db)
    → (m db).1 ≡ db
    → ((a : A) → (m db).0 ≡ ok a → Safe (f a) db)
    → Safe (m >>= f) db
read-Safe {A} {B} m f db same h = record { rows = λ v. go (m db).0 refl v }
  where
    go : (r : Result A) → (m db).0 ≡ r → Inv db.jobs → Pointwise db.jobs ((m >>= f) db).1.jobs
    go (ok a) e v = rw (e, same) ((h a e).rows v)
    go (err x) e v = rw (e, same) (Pointwise-refl _ v.bounded)

pub then-Quiet-Safe :
    {A B : Type 0} (m : M A) (f : A → M B) (db : Db)
    → Safe m db
    → ((a : A) (db' : Db) → Quiet (f a) db')
    → Safe (m >>= f) db
then-Quiet-Safe {A} {B} m f db s q = record { rows = λ v. go (m db).0 refl v }
  where
    go : (r : Result A) → (m db).0 ≡ r → Inv db.jobs → Pointwise db.jobs ((m >>= f) db).1.jobs
    go (ok a) e v = rw (e, (q a (m db).1).kept) (s.rows v)
    go (err x) e v = rw e (s.rows v)

pub absent_rows :
    (k : ℕ) (xs : List Job) → find (λ j. j.id == k) xs ≡ none → All (λ j. (j.id == k) ≡ false) xs
absent_rows k [] h = tt
absent_rows k (x ∷ xs) h = elim (Bool-cases (x.id == k)) [
  | inl e ↦ ground arith
  | inr e ↦ (e, absent_rows k xs (ground arith))
]

vacuous :
    (P : Job → Type 0) (hit : Job → Bool) (xs : List Job)
    → All (λ j. hit j ≡ false) xs
    → All (λ j. hit j ≡ true → P j) xs
vacuous P hit [] h = tt
vacuous P hit (x ∷ xs) h = (λ t. cc h.0, vacuous P hit xs h.1)

pub some_eq : {a b : Job} → some a ≡ some b → b ≡ a
some_eq e = cc

-- Under distinct ids the row that `find` returns is the only one of its id.
pub only_row :
    (P : Job → Type 0) (k : ℕ) (xs : List Job) (r : Job)
    → Distinct id_of xs
    → find (λ j. j.id == k) xs ≡ some r
    → P r
    → All (λ j. (j.id == k) ≡ true → P j) xs
only_row P k [] r d h p = tt
only_row P k (x ∷ xs) r d h p = elim (Bool-cases (x.id == k)) [
  | inl e ↦ (
    λ t. subst P (some_eq (rw e at h)) p,
    vacuous P (λ j. j.id == k) xs
        (let q : x.id ≡ k = (==_iff x.id k).0 e in absent_rows k xs (rw q at d.0)),
  )
  | inr e ↦ (λ t. cc e, only_row P k xs r d.1 (rw e at h) p)
]

pub All-map : (P Q : Job → Type 0) (xs : List Job) → ((j : Job) → P j → Q j) → All P xs → All Q xs
All-map P Q [] f h = tt
All-map P Q (x ∷ xs) f h = (f x h.0, All-map P Q xs f h.1)

-- A guarded write advances its row if it does so for the row that was read.
pub write-Safe :
    (id : ℕ) (change : Job → Job) (status : Option JobStatus) (revision : Option ℕ) (db : Db)
    (seen : Job)
    → job_of id db ≡ some seen
    → (Inv db.jobs
        → status_is status seen ≡ true
        → revision_is revision seen ≡ true
        → Advances seen (change seen))
    → Safe (write id change status revision) db
unfolding write get
write-Safe id change status revision db seen e h = record {
  rows = λ v. elim (Bool-cases (count_where (written id status revision) db.jobs == 1)) [
    | inl one ↦ rw one (
        update_where-Pointwise (written id status revision) change db.jobs v.bounded (
          All-map _ _ db.jobs
            (λ j f t. let (a, b) = and-eq_true _ _ t in let (c, d) = and-eq_true _ _ b in f a c d)
            (only_row
              (λ j.
                status_is status j ≡ true → revision_is revision j ≡ true → Advances j (change j))
              id db.jobs seen v.distinct e (h v))))
    | inr other ↦ rw other (Pointwise-refl _ v.bounded)
  ];
}

-- Changes of columns that leave a row's identity, its progress up to 1.0, and its attempts.
pub record IsSteady (change : Job → Job) (j : Job) : Type 0 where
  pub steady_id : (change j).id ≡ j.id
  pub steady_project : (change j).project_id ≡ j.project_id
  pub steady_type : (change j).job_type ≡ j.job_type
  pub steady_key : (change j).cache_key ≡ j.cache_key
  pub steady_paid : (change j).paid ≡ j.paid
  pub steady_limit : (change j).max_attempts ≡ j.max_attempts
  pub steady_creation : (change j).created_at ≡ j.created_at
  pub steady_attempts : (change j).attempts ≡ j.attempts
  pub steady_progress : j.progress ≤ (change j).progress
  pub steady_bound : (change j).progress ≤ whole

pub valid-bounded : (j : Job) → valid_job j ≡ true → j.progress ≤ whole
unfolding valid_job
valid-bounded j h = ground arith

allowed-lifecycle : (a b : JobStatus) → allowed a b ≡ true → lifecycle a b ≡ true
unfolding lifecycle
allowed-lifecycle a b h = ground arith

close-Quiet :
    (s : Option AttemptStatus) (a : Option ℕ) (now : ℕ) (updated : Job) (db : Db)
    → Quiet (sync_attempt s a now >> pure updated) db
unfolding sync_attempt
close-Quiet none a now updated db = record { kept = refl }
close-Quiet (some s) none now updated db = record { kept = refl }
close-Quiet (some s) (some a) now updated db = record { kept = refl }

finish_transition-Safe :
    (id : ℕ) (target : JobStatus) (change : Job → Job) (now : ℕ) (seen : Job) (db : Db)
    → job_of id db ≡ some seen
    → allowed seen.status target ≡ true
    → IsSteady change seen
    → Safe (finish_transition id target change now seen) db
unfolding finish_transition
finish_transition-Safe id target change now seen db e a s =
    then-Quiet-Safe (write id (moved target change now) (some seen.status) (some seen.revision))
      (close_after target seen now) db
      (write-Safe id (moved target change now) (some seen.status) (some seen.revision) db seen e
        (λ v t u. record {
          same_id = s.steady_id;
          same_project = s.steady_project;
          same_job_type = s.steady_type;
          same_cache_key = s.steady_key;
          same_paid = s.steady_paid;
          same_limit = s.steady_limit;
          same_creation = s.steady_creation;
          status_moves = allowed-lifecycle seen.status target a;
          progress_grows = s.steady_progress;
          progress_bounded = s.steady_bound;
          attempts_grow = omega (arith, s.steady_attempts);
          stamped = inr (omega arith);
        }))
      (λ updated. close-Quiet (attempt_status target) seen.current_attempt_id now updated)

decide-Safe :
    (id : ℕ) (target : JobStatus) (change : Job → Job) (now : ℕ) (seen : Job) (db : Db)
    → job_of id db ≡ some seen
    → IsSteady change seen
    → Safe (decide_transition id target change now seen) db
decide-Safe id target change now seen db e s = elim (Bool-cases (same_status seen.status target)) [
  | inl same ↦ rw same (Quiet-Safe (pure-Quiet seen db))
  | inr other ↦ elim (Bool-cases (allowed seen.status target)) [
    | inl a ↦ rw (other, a) (finish_transition-Safe id target change now seen db e a s)
    | inr a ↦ rw (other, a) (Quiet-Safe (raise-Quiet conflict db))
  ]
]

-- `_transition` advances the row, whatever the caller's columns, if they leave its identity alone.
pub transition-Safe :
    (id : ℕ) (target : JobStatus) (expected : Option ℕ) (change : Job → Job) (now : ℕ) (db : Db)
    → ((j : Job) → j.progress ≤ whole → IsSteady change j)
    → Safe (transition id target expected change now) db
unfolding transition
transition-Safe id target expected change now db s =
    get-Safe id
      (λ j. require_expected_revision j expected >> decide_transition id target change now j) db
      λ j e v.
        expected-Safe j expected (decide_transition id target change now j) db
          (decide-Safe id target change now j db e (s j (valid-bounded j v)))
