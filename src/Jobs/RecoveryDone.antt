-- ===== src/Jobs/RecoveryDone.antt =====
-- `recover_interrupted_jobs` of jobs/repository.py: no job is left in the middle of anything.
use ppt_video_workbench_v.Base.{
  ℕ, ◌≡◌, refl, List, [], ◌∷◌, ◌++◌, Option, Bool, true, false, not, ◌||◌, ◌==◌, keep, All,
  update_where, if◌then◌else◌, arith, Bool-cases, ==_refl, inl, inr, ==_iff,
}
use ppt_video_workbench_v.Jobs.Record.{Job}
use ppt_video_workbench_v.Jobs.Store.{Db}
use ppt_video_workbench_v.Jobs.Recovery.{
  is_interrupted, is_cancelling, ids_where, one_of, cleanup_failed, interrupted_row,
  recovered_cancel_row, cleanup_failed_row, clean_ids, settle, recover_interrupted_jobs,
}
use ppt_video_workbench_v.Jobs.RecoverySafety.{get_all-reads}
use ppt_video_workbench_v.Jobs.Safety.{All-map}

ids_grow :
    (p : Job → Bool) (j : Job) (xs : List Job) (k : ℕ)
    → one_of (ids_where p xs) k ≡ true
    → one_of (ids_where p (j ∷ xs)) k ≡ true
ids_grow p j xs k h = elim (Bool-cases (p j)) [ inl t ↦ rw t (ground arith) | inr f ↦ rw f h ]

selected :
    (p : Job → Bool) (xs : List Job)
    → All (λ x. p x ≡ true → one_of (ids_where p xs) x.id ≡ true) xs
selected p [] = tt
selected p (x ∷ xs) = (
  λ t. rw (t, ==_refl x.id) refl,
  All-map _ _ xs (λ j h t. ids_grow p x xs j.id (h t)) (selected p xs),
)

kept :
    (q : ℕ → Bool) (k : ℕ) (ids : List ℕ)
    → one_of ids k ≡ true
    → q k ≡ true
    → one_of (keep q ids) k ≡ true
kept q k [] h t = h
kept q k (i ∷ ids) h t = elim (Bool-cases (i == k)) [
  | inl e ↦ let s : i ≡ k = (==_iff i k).0 e in rw (s, t, ==_refl k) refl
  | inr e ↦ elim (Bool-cases (q i)) [
    | inl a ↦ rw (a, e) (kept q k ids (rw e at h) t)
    | inr a ↦ rw a (kept q k ids (rw e at h) t)
  ]
]

-- In the middle of something: running, pausing or cancelling.
abbrev pub unsettled : Job → Bool
unsettled j = is_interrupted j || is_cancelling j

-- An UPDATE of one row.
abbrev update_row : (Job → Bool) → (Job → Job) → Job → Job
update_row hit change j = if hit j then change j else j

-- The three UPDATEs on one row, by which of the three lists its id is in.
abbrev settled : Bool → Bool → Bool → ℕ → Job → Job
settled a b c now j =
    let x = if a then interrupted_row now j else j in
    let y = if b then recovered_cancel_row now x else x in if c then cleanup_failed_row now y else y

settled_lem :
    (a b c : Bool) (now : ℕ) (j : Job)
    → (is_interrupted j ≡ true → a ≡ true)
    → (is_cancelling j ≡ true → (b || c) ≡ true)
    → unsettled (settled a b c now j) ≡ false
settled_lem a b true now j h k = refl
settled_lem a true false now j h k = refl
settled_lem true false false now j h k = refl
settled_lem false false false now j h k = ground arith

settled_rows :
    (interrupted clean unclean : List ℕ) (now : ℕ) (xs : List Job)
    → All (λ j. is_interrupted j ≡ true → one_of interrupted j.id ≡ true) xs
    → All (λ j. is_cancelling j ≡ true → (one_of clean j.id || one_of unclean j.id) ≡ true) xs
    → All
        (λ j. unsettled j ≡ false)
        (update_where
          (λ j. one_of unclean j.id)
          (cleanup_failed_row now)
          (update_where
            (λ j. one_of clean j.id)
            (recovered_cancel_row now)
            (update_where (λ j. one_of interrupted j.id) (interrupted_row now) xs)))
settled_rows interrupted clean unclean now [] h k = tt
settled_rows interrupted clean unclean now (j ∷ xs) h k = (
  same_row (one_of interrupted j.id) refl (one_of clean j.id) refl,
  settled_rows interrupted clean unclean now xs h.1 k.1,
)
  where
    same_row :
        (a : Bool)
        → one_of interrupted j.id ≡ a
        → (b : Bool) → one_of clean j.id ≡ b
        → unsettled (
            update_row
              (λ x. one_of unclean x.id)
              (cleanup_failed_row now)
              (update_row
                (λ x. one_of clean x.id)
                (recovered_cancel_row now)
                (update_row (λ x. one_of interrupted x.id) (interrupted_row now) j)))
          ≡ false
    same_row true e true f =
        rw (e, f) (settled_lem true true (one_of unclean j.id) now j (λ t. refl) (λ t. refl))
    same_row true e false f =
        rw (e, f) (settled_lem true false (one_of unclean j.id) now j (λ t. refl) (rw f at k.0))
    same_row false e true f =
        rw (e, f) (settled_lem false true (one_of unclean j.id) now j (rw e at h.0) (λ t. refl))
    same_row false e false f =
        rw (e, f) (settled_lem false false (one_of unclean j.id) now j (rw e at h.0) (rw f at k.0))

split :
    (cancelling unclean : List ℕ) (k : ℕ)
    → one_of cancelling k ≡ true
    → (one_of (clean_ids cancelling unclean) k || one_of unclean k) ≡ true
split cancelling unclean k h = elim (Bool-cases (one_of unclean k)) [
  | inl t ↦ rw t (ground arith)
  | inr f ↦ rw (kept (λ id. not (one_of unclean id)) k cancelling h (rw f refl)) refl
]

-- After a recovery, whatever the tables held and whatever the cleanup of a cancelled job did, no
-- job is running, pausing or waiting to be cancelled.
pub recovery_settles :
    (cleanup : Option (Job → Bool)) (now : ℕ) (db : Db)
    → All (λ j. unsettled j ≡ false) (recover_interrupted_jobs cleanup now db).1.jobs
unfolding recover_interrupted_jobs settle
recovery_settles cleanup now db =
    let interrupted = ids_where is_interrupted db.jobs in
    let cancelling = ids_where is_cancelling db.jobs in
    let unclean = cleanup_failed cleanup db cancelling in
    rw (get_all-reads (interrupted ++ cancelling) (settle interrupted cancelling unclean now db)) (
      settled_rows interrupted (clean_ids cancelling unclean) unclean now db.jobs
        (selected is_interrupted db.jobs)
        (All-map _ _ db.jobs (λ j h t. split cancelling unclean j.id (h t))
          (selected is_cancelling db.jobs)))
