-- ===== src/Jobs/PublicationLife.antt =====
-- The life of an artifact publication in jobs/repository.py: reserved, then published, then perhaps
-- corrupted; what it publishes never changes.
use ppt_video_workbench_v.Base.{
  ℕ, ◌≡◌, refl, inl, inr, String, List, [], ◌∷◌, Option, none, some, Bool, true, false, not, ◌||◌,
  ◌==◌, opt_eq, count_where, update_where, arith, Bool-cases, and-eq_true, eq_iff, ==_iff,
}
use ppt_video_workbench_v.Jobs.Record.{
  Publication, PublicationState, reserved, published, valid_publication,
}
use ppt_video_workbench_v.Jobs.Store.{Db}
use ppt_video_workbench_v.Jobs.Access.{job_of}
use ppt_video_workbench_v.Jobs.Publications.{
  publication_of, is_reserved, is_published, publishable, published_row, publish_publication,
  suspect, corrupted_row, reconcile_row, reconcile_publication, require_current_attempt,
  current_attempt_id,
}

-- What publishing may do to a row: nothing, or publish it, which asks for the key, the job, the
-- attempt and the manifest hash of the reservation, and for that attempt to be the job's current
-- one.
pub data Publishes (key : String) (job attempt : ℕ) (hash : String) (now : ℕ) (current : Bool)
    (p : Publication) : Publication → Type 0 where
  untouched : {q : Publication} → q ≡ p → Publishes key job attempt hash now current p q
  published_now :
      {q : Publication}
      → current ≡ true
      → p.publication_key ≡ key
      → p.job_id ≡ job
      → p.attempt_id ≡ attempt
      → p.manifest_hash ≡ hash
      → p.state ≡ reserved
      → q ≡ published_row now p
      → Publishes key job attempt hash now current p q

abbrev pub Rows :
    (Publication → Publication → Type 0) → List Publication → List Publication → Type 0
Rows R [] [] = Unit
Rows R [] (q ∷ qs) = ⊥
Rows R (p ∷ ps) [] = ⊥
Rows R (p ∷ ps) (q ∷ qs) = R p q × Rows R ps qs

is_reserved_eq : (s : PublicationState) → is_reserved s ≡ true → s ≡ reserved
is_reserved_eq s h = ground arith

is_published_eq : (s : PublicationState) → is_published s ≡ true → s ≡ published
is_published_eq s h = ground arith

module _ (key : String) (job attempt : ℕ) (hash : String) (now : ℕ) where
  untouched-Rows :
      (current : Bool) (ps : List Publication)
      → Rows (Publishes key job attempt hash now current) ps ps
  untouched-Rows current [] = tt
  untouched-Rows current (p ∷ ps) = (untouched refl, untouched-Rows current ps)

  publish_row :
      (p : Publication)
      → publishable key job attempt hash p ≡ true
      → Publishes key job attempt hash now true p (published_row now p)
  publish_row p h =
      let (a, b) = and-eq_true _ _ h in
      let (c, d) = and-eq_true _ _ b in
      let (e, f) = and-eq_true _ _ d in
      let (g, i) = and-eq_true _ _ f in
      published_now refl ((eq_iff p.publication_key key).0 a) ((==_iff p.job_id job).0 c)
        ((==_iff p.attempt_id attempt).0 e) ((eq_iff p.manifest_hash hash).0 g)
        (is_reserved_eq p.state i) refl

  publish-Rows :
      (ps : List Publication)
      → Rows
          (Publishes key job attempt hash now true)
          ps
          (update_where (publishable key job attempt hash) (published_row now) ps)
  publish-Rows [] = tt
  publish-Rows (p ∷ ps) = elim (Bool-cases (publishable key job attempt hash p)) [
    | inl h ↦ rw h (publish_row p h, publish-Rows ps)
    | inr h ↦ rw h (untouched refl, publish-Rows ps)
  ]

  -- A publish call changes at most rows that are reserved under the key, job, attempt and manifest
  -- hash that it names, and only while that attempt is the current one of the job; a row it changes
  -- is published at the time of the call with its identity and content kept. So an artifact is
  -- published once, and never by an attempt that has been superseded.
  pub publish-Publishes :
      (db : Db)
      → Rows
          (Publishes key job attempt hash now
            (opt_eq (current_attempt_id (job_of job db)) (some attempt)))
          db.publications
          (publish_publication key job attempt hash now db).1.publications
  unfolding publish_publication require_current_attempt
  publish-Publishes db =
      elim (Bool-cases (opt_eq (current_attempt_id (job_of job db)) (some attempt))) [
        | inl c ↦
            elim (Bool-cases
              (count_where (publishable key job attempt hash) db.publications == 1)) [
                | inl one ↦ rw (c, one) (publish-Rows db.publications)
                | inr other ↦ rw (c, other) (untouched-Rows true db.publications)
              ]
        | inr n ↦ rw n (untouched-Rows false db.publications)
      ]

-- What a reconciliation may do to a row: nothing, or mark it corrupted, which asks for the key, for
-- it to be published, and for the verifier to have rejected.
pub data Reconciles (key : String) (rejected : Bool) (p : Publication) : Publication → Type 0 where
  kept : {q : Publication} → q ≡ p → Reconciles key rejected p q
  spoiled :
      {q : Publication}
      → rejected ≡ true
      → p.publication_key ≡ key
      → p.state ≡ published
      → q ≡ corrupted_row p
      → Reconciles key rejected p q

kept-Rows : (key : String) (r : Bool) (ps : List Publication) → Rows (Reconciles key r) ps ps
kept-Rows key r [] = tt
kept-Rows key r (p ∷ ps) = (kept refl, kept-Rows key r ps)

spoiled-Rows :
    (key : String) (ps : List Publication)
    → Rows (Reconciles key true) ps (update_where (suspect key) corrupted_row ps)
spoiled-Rows key [] = tt
spoiled-Rows key (p ∷ ps) = elim (Bool-cases (suspect key p)) [
  | inl h ↦
      let (a, b) = and-eq_true _ _ h in
      rw h (
        spoiled refl ((eq_iff p.publication_key key).0 a) (is_published_eq p.state b) refl,
        spoiled-Rows key ps,
      )
  | inr h ↦ rw h (kept refl, spoiled-Rows key ps)
]

-- The verifier's verdict on the row of the key.
abbrev pub rejects : (Publication → Bool) → Option Publication → Bool
rejects verifier none = false
rejects verifier (some p) = not (verifier p)

module _ (key : String) (verifier : Publication → Bool) where
  verdict : (b c : Bool) → (b || c) ≡ false → not c ≡ true
  verdict b c h = ground arith

  reconcile-Rows :
      (o : Option Publication) (db : Db)
      → Rows
          (Reconciles key (rejects verifier o))
          db.publications
          (reconcile_row key verifier o db).1.publications
  reconcile-Rows none db = kept-Rows key false db.publications
  reconcile-Rows (some p) db = elim (Bool-cases (valid_publication p)) [
    | inl w ↦ elim (Bool-cases (not (is_published p.state) || verifier p)) [
      | inl fine ↦ rw (w, fine) (kept-Rows key (not (verifier p)) db.publications)
      | inr bad ↦
          rw (w, bad, verdict (not (is_published p.state)) (verifier p) bad)
            (spoiled-Rows key db.publications)
    ]
    | inr w ↦ rw w (kept-Rows key (not (verifier p)) db.publications)
  ]

  -- A reconciliation changes at most rows that are published under its key, and only where the
  -- verifier rejects the row of that key; it marks them corrupted, with identity and content kept.
  pub reconcile-Reconciles :
      (db : Db)
      → Rows
          (Reconciles key (rejects verifier (publication_of key db)))
          db.publications
          (reconcile_publication key verifier db).1.publications
  unfolding reconcile_publication
  reconcile-Reconciles db = reconcile-Rows (publication_of key db) db
