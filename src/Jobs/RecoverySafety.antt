-- ===== src/Jobs/RecoverySafety.antt =====
-- `recover_interrupted_jobs` of jobs/repository.py keeps the invariant and advances the rows: the
-- three UPDATEs hit different rows, each in the status that its move starts from.
use ppt_video_workbench_v.Base.{
  ℕ, ◌≤◌, ◌≡◌, refl, inl, inr, List, [], ◌∷◌, Option, none, some, Bool, true, false, ◌==◌, All,
  keep, update_where, arith, Bool-cases, Distinct,
}
use ppt_video_workbench_v.Jobs.Record.{Job, whole}
use ppt_video_workbench_v.Jobs.Store.{Db, pure, ◌>>=◌}
use ppt_video_workbench_v.Jobs.Access.{get}
use ppt_video_workbench_v.Jobs.Recovery.{
  is_interrupted, is_cancelling, ids_where, one_of, cleanup_failed, clean_ids, interrupted_row,
  recovered_cancel_row, cleanup_failed_row, settle, get_all, recover_interrupted_jobs,
}
use ppt_video_workbench_v.Jobs.Lifecycle.{lifecycle, Advances, Pointwise, id_of, Advances-refl}
use ppt_video_workbench_v.Jobs.Safety.{Safe, absent_rows, follow-reads}

ids_absent :
    (p : Job → Bool) (k : ℕ) (xs : List Job)
    → All (λ j. (j.id == k) ≡ false) xs
    → one_of (ids_where p xs) k ≡ false
ids_absent p k [] h = refl
ids_absent p k (x ∷ xs) h = ground (arith, ids_absent p k xs h.1)

ids_tail :
    (p : Job → Bool) (x : Job) (xs ys : List Job)
    → All (λ j. (j.id == x.id) ≡ false) ys
    → All (λ j. one_of (ids_where p xs) j.id ≡ true → p j ≡ true) ys
    → All (λ j. one_of (ids_where p (x ∷ xs)) j.id ≡ true → p j ≡ true) ys
ids_tail p x xs [] a h = tt
ids_tail p x xs (y ∷ ys) a h = (λ t. ground (arith, h.0, a.0), ids_tail p x xs ys a.1 h.1)

-- Under distinct ids, an id was selected only if its row passed the test.
ids_selected :
    (p : Job → Bool) (xs : List Job)
    → Distinct id_of xs
    → All (λ j. one_of (ids_where p xs) j.id ≡ true → p j ≡ true) xs
ids_selected p [] d = tt
ids_selected p (x ∷ xs) d = (
  λ t. ground (arith, ids_absent p x.id xs (absent_rows x.id xs d.0)),
  ids_tail p x xs xs (absent_rows x.id xs d.0) (ids_selected p xs d.1),
)

keep_member :
    (q : ℕ → Bool) (k : ℕ) (ids : List ℕ)
    → one_of (keep q ids) k ≡ true
    → (one_of ids k ≡ true) × (q k ≡ true)
keep_member q k [] h = cc
keep_member q k (i ∷ ids) h = ground (arith, keep_member q k ids)

interrupted-Advances :
    (now : ℕ) (j : Job)
    → j.progress ≤ whole
    → is_interrupted j ≡ true
    → Advances j (interrupted_row now j)
unfolding lifecycle
interrupted-Advances now j h s = record {
  same_id = refl;
  same_project = refl;
  same_job_type = refl;
  same_cache_key = refl;
  same_paid = refl;
  same_limit = refl;
  same_creation = refl;
  status_moves = ground arith;
  progress_grows = omega arith;
  progress_bounded = h;
  attempts_grow = omega arith;
  stamped = inr (omega arith);
}

recovered-Advances :
    (now : ℕ) (j : Job)
    → j.progress ≤ whole
    → is_cancelling j ≡ true
    → Advances j (recovered_cancel_row now j)
unfolding lifecycle
recovered-Advances now j h s = record {
  same_id = refl;
  same_project = refl;
  same_job_type = refl;
  same_cache_key = refl;
  same_paid = refl;
  same_limit = refl;
  same_creation = refl;
  status_moves = ground arith;
  progress_grows = omega arith;
  progress_bounded = h;
  attempts_grow = omega arith;
  stamped = inr (omega arith);
}

cleanup-Advances :
    (now : ℕ) (j : Job)
    → j.progress ≤ whole
    → is_cancelling j ≡ true
    → Advances j (cleanup_failed_row now j)
unfolding lifecycle
cleanup-Advances now j h s = record {
  same_id = refl;
  same_project = refl;
  same_job_type = refl;
  same_cache_key = refl;
  same_paid = refl;
  same_limit = refl;
  same_creation = refl;
  status_moves = ground arith;
  progress_grows = omega arith;
  progress_bounded = h;
  attempts_grow = omega arith;
  stamped = inr (omega arith);
}

not_both : (j : Job) → is_interrupted j ≡ true → is_cancelling j ≡ false
not_both j h = ground arith

-- What the three lists of ids say of a row.
record IsSorted (interrupted clean unclean : List ℕ) (j : Job) : Type 0 where
  from_interrupted : one_of interrupted j.id ≡ true → is_interrupted j ≡ true
  from_clean : one_of clean j.id ≡ true → (is_cancelling j ≡ true) × (one_of unclean j.id ≡ false)
  from_unclean : one_of unclean j.id ≡ true → is_cancelling j ≡ true

excluded : (b c : Bool) → (b ≡ true → c ≡ true) → c ≡ false → b ≡ false
excluded true c h e = absurd (cc (h refl))
excluded false c h e = refl

settled-Pointwise :
    (interrupted clean unclean : List ℕ) (now : ℕ) (xs : List Job)
    → All (λ j. j.progress ≤ whole) xs
    → All (IsSorted interrupted clean unclean) xs
    → Pointwise xs (
        update_where
          (λ j. one_of unclean j.id)
          (cleanup_failed_row now)
          (update_where
            (λ j. one_of clean j.id)
            (recovered_cancel_row now)
            (update_where (λ j. one_of interrupted j.id) (interrupted_row now) xs)))
settled-Pointwise interrupted clean unclean now [] b s = tt
settled-Pointwise interrupted clean unclean now (j ∷ xs) b s =
    let rest = settled-Pointwise interrupted clean unclean now xs b.1 s.1 in
    elim (Bool-cases (one_of interrupted j.id)) [
      | inl i ↦
          let at_work : is_interrupted j ≡ true = s.0.from_interrupted i in
          let u : one_of unclean j.id ≡ false =
            excluded _ _ s.0.from_unclean (not_both j at_work) in
          let c : one_of clean j.id ≡ false =
            excluded _ _ (λ t. (s.0.from_clean t).0) (not_both j at_work) in
          rw (i, c, u) (interrupted-Advances now j b.0 at_work, rest)
      | inr i ↦ elim (Bool-cases (one_of clean j.id)) [
        | inl c ↦
            let (x, u) = s.0.from_clean c in rw (i, c, u) (recovered-Advances now j b.0 x, rest)
        | inr c ↦ elim (Bool-cases (one_of unclean j.id)) [
          | inl u ↦ rw (i, c, u) (cleanup-Advances now j b.0 (s.0.from_unclean u), rest)
          | inr u ↦ rw (i, c, u) (Advances-refl j b.0, rest)
        ]
      ]
    ]

failed_member :
    (cleanup : Option (Job → Bool)) (db : Db) (ids : List ℕ) (k : ℕ)
    → one_of (cleanup_failed cleanup db ids) k ≡ true
    → one_of ids k ≡ true
unfolding cleanup_failed
failed_member none db ids k h = cc
failed_member (some f) db ids k h = (keep_member _ k ids h).0

IsSorted-each :
    (unclean : List ℕ) (all_jobs xs : List Job)
    → ((k : ℕ) → one_of unclean k ≡ true → one_of (ids_where is_cancelling all_jobs) k ≡ true)
    → All (λ j. one_of (ids_where is_interrupted all_jobs) j.id ≡ true → is_interrupted j ≡ true) xs
    → All (λ j. one_of (ids_where is_cancelling all_jobs) j.id ≡ true → is_cancelling j ≡ true) xs
    → All
        (IsSorted
          (ids_where is_interrupted all_jobs)
          (clean_ids (ids_where is_cancelling all_jobs) unclean)
          unclean)
        xs
IsSorted-each unclean all_jobs [] f i c = tt
IsSorted-each unclean all_jobs (x ∷ xs) f i c = (
  record {
    from_interrupted = i.0;
    from_clean = λ t.
        let (a, b) = keep_member _ x.id (ids_where is_cancelling all_jobs) t in
        (c.0 a, ground arith);
    from_unclean = λ t. c.0 (f x.id t);
  },
  IsSorted-each unclean all_jobs xs f i.1 c.1,
)

pub get_all-reads : (ids : List ℕ) (db : Db) → (get_all ids db).1 ≡ db
unfolding get_all get
get_all-reads [] db = refl
get_all-reads (id ∷ ids) db =
    follow-reads (λ j. get_all ids >>= λ js. pure (j ∷ js)) (get id db).0 db db refl
      λ j.
        follow-reads (λ js. pure (j ∷ js)) (get_all ids db).0 (get_all ids db).1 db
          (get_all-reads ids db) (λ js. refl)

pub recover_interrupted_jobs-Safe :
    (cleanup : Option (Job → Bool)) (now : ℕ) (db : Db)
    → Safe (recover_interrupted_jobs cleanup now) db
unfolding recover_interrupted_jobs settle
recover_interrupted_jobs-Safe cleanup now db = record {
  rows = λ v.
      let interrupted = ids_where is_interrupted db.jobs in
      let cancelling = ids_where is_cancelling db.jobs in
      let unclean = cleanup_failed cleanup db cancelling in
      rw get_all-reads (
        settled-Pointwise interrupted (clean_ids cancelling unclean) unclean now db.jobs v.bounded (
          IsSorted-each unclean db.jobs db.jobs (failed_member cleanup db cancelling)
            (ids_selected is_interrupted db.jobs v.distinct)
            (ids_selected is_cancelling db.jobs v.distinct)));
}
