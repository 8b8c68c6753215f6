-- ===== src/Jobs/Store.antt =====
-- The state that a `JobRepository` works on, and the monad of its methods: a method reads and
-- writes the tables and either returns or raises. A raise inside a transaction rolls that
-- transaction back; what earlier transactions of the same method committed stays.
use ppt_video_workbench_v.Base.{List, Bool, if◌then◌else◌, ◌≡◌, refl}
use ppt_video_workbench_v.Jobs.Record.{Job, Attempt, CheckpointRow, Publication}

-- The tables, and whether the workspace was migrated from schema 1: only such a workspace has the
-- partial unique index of its active export jobs.
pub record Db : Type 0 where
  pub jobs : List Job
  pub attempts : List Attempt
  pub checkpoints : List CheckpointRow
  pub publications : List Publication
  pub migrated : Bool

-- The exceptions: SQLAlchemy's `NoResultFound` and `IntegrityError`, pydantic's `ValidationError`,
-- the module's own `JobTransitionConflict`, and `ValueError`.
pub data JobError : Type 0 where
  not_found integrity validation conflict value_error : JobError

pub data Result {ℓ} (A : Type ℓ) : Type ℓ where
  ok : A → Result A
  err : JobError → Result A

abbrev pub M : Type 0 → Type 0
M A = Db → Result A × Db

abbrev pub pure : {A : Type 0} → A → M A
pure a db = (ok a, db)

abbrev pub raise : {A : Type 0} → JobError → M A
raise e db = (err e, db)

-- What follows a result: the next step, or the same exception.
abbrev pub follow : {A B : Type 0} → (A → M B) → Result A → M B
follow f (ok a) db = f a db
follow f (err e) db = (err e, db)

infixl 5 ◌>>=◌ ◌>>◌
abbrev pub ◌>>=◌ : {A B : Type 0} → M A → (A → M B) → M B
◌>>=◌ m f db = follow f (m db).0 (m db).1

abbrev pub ◌>>◌ : {A B : Type 0} → M A → M B → M B
m >> k = m >>= λ _. k

-- `if bad: raise e`
abbrev pub refuse_if : Bool → JobError → M Unit
refuse_if bad e db = if bad then (err e, db) else (ok tt, db)

-- A step that returned, before the next.
pub >>=-ok :
    {A B : Type 0} (m : M A) (f : A → M B) (db db' : Db) (a : A)
    → m db ≡ (ok a, db')
    → (m >>= f) db ≡ f a db'
>>=-ok m f db db' a e = rw e

-- A step that raised.
pub >>=-err :
    {A B : Type 0} (m : M A) (f : A → M B) (db db' : Db) (x : JobError)
    → m db ≡ (err x, db')
    → (m >>= f) db ≡ (err x, db')
>>=-err m f db db' x e = rw e

-- What a chain that returned says of its parts, where the first part only read.
pub >>=-returned :
    {A B : Type 0} (m : M A) (f : A → M B) (db : Db) (b : B)
    → (m db).1 ≡ db
    → ((m >>= f) db).0 ≡ ok b
    → (a : A) × ((m db).0 ≡ ok a) × ((m >>= f) db ≡ f a db)
>>=-returned {A} {B} m f db b s h = go (m db).0 refl h
  where
    go :
        (r : Result A)
        → (m db).0 ≡ r
        → (follow f (m db).0 (m db).1).0 ≡ ok b
        → (a : A) × ((m db).0 ≡ ok a) × ((m >>= f) db ≡ f a db)
    go (ok a) e k = (a, e, rw (e, s))
    go (err x) e k = absurd (cc (rw e at k))
