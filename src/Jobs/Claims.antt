-- ===== src/Jobs/Claims.antt =====
-- `claim_next` of jobs/repository.py: the job it takes, the attempt it opens, and the calls that
-- this closes to the attempts before.
use ppt_video_workbench_v.Base.{
  ℕ, ◌+◌, ◌≤◌, ◌<◌, ◌≡◌, ◌≢◌, refl, ap, Bool, false, Bool-cases, sym, subst, ◌∙◌, ◌⊎◌, inl, inr,
  String, List, [], ◌∷◌, ◌++◌, Option, none, some, true, false, ◌&&◌, ◌==◌, opt_eq, All, All-find,
  find-update_found, count_where, count_where-found, update_where, arith, Option-cases,
}
use ppt_video_workbench_v.Jobs.Status.{JobType, queued, same_status}
use ppt_video_workbench_v.Jobs.Record.{Job, Attempt, valid_job}
use ppt_video_workbench_v.Jobs.Store.{Db, ok, err, conflict, refuse_if, ◌>>◌, >>=-ok, >>=-err}
use ppt_video_workbench_v.Jobs.Access.{job_of, get, written}
use ppt_video_workbench_v.Jobs.Claim.{
  Claim, earlier, first_row, claimable, last_generation, new_attempt, claimed_row, take_job,
  claim_next,
}
use ppt_video_workbench_v.Jobs.Progress.{other_attempt, require_generation, beat_seen, heartbeat}
use ppt_video_workbench_v.Jobs.Publications.{
  require_current_attempt, reservation, reserve_new, reserve_publication, publish_rows,
  publish_publication,
}
use ppt_video_workbench_v.Jobs.Lifecycle.{Inv, id_of}
use ppt_video_workbench_v.Jobs.ClaimOrder.{
  first_row-IsFirst, find_row, last_generation-bounds, no_clash, no_row,
}
use ppt_video_workbench_v.Jobs.Outcomes.{get_lem}
use ppt_video_workbench_v.Jobs.Safety.{Safe-Inv}
use ppt_video_workbench_v.Jobs.ProgressSafety.{claim_next-Safe}

-- The tables after claiming the row.
abbrev pub claimed_db : Claim → Job → Db → Db
claimed_db c j db = record db {
  jobs = update_where (written j.id (some queued) none) (claimed_row c) db.jobs;
  attempts = db.attempts ++ new_attempt c j db.attempts ∷ [];
}

valid_claimed : (c : Claim) (j : Job) → valid_job j ≡ true → valid_job (claimed_row c j) ≡ true
unfolding valid_job
valid_claimed c j h = ground arith

queued_hit :
    (type : JobType) (j : Job) → claimable type j ≡ true → written j.id (some queued) none j ≡ true
queued_hit type j h = ground arith

module _ (type : JobType) (c : Claim) (db : Db) (j : Job) (v : Inv db.jobs)
    (found : first_row (claimable type) db.jobs ≡ some j) where
  job_of-claimed : job_of j.id (claimed_db c j db) ≡ some (claimed_row c j)
  job_of-claimed =
      find-update_found id_of (written j.id (some queued) none) (claimed_row c) j.id db.jobs j
        (λ x. refl) (find_row (claimable type) db.jobs j v.distinct found)
      ∙ rw (queued_hit type j (first_row-IsFirst (claimable type) db.jobs j found).passes)

  one_hit : count_where (written j.id (some queued) none) db.jobs ≡ 1
  one_hit =
      count_where-found id_of (λ x. same_status x.status queued && true) j.id db.jobs j v.distinct
        (find_row (claimable type) db.jobs j v.distinct found)
      ∙ ground (arith, (first_row-IsFirst (claimable type) db.jobs j found).passes)

  taken :
      valid_job j ≡ true
      → take_job c j.id (record db { attempts = db.attempts ++ new_attempt c j db.attempts ∷ [] })
        ≡ (ok (some (claimed_row c j)), claimed_db c j db)
  unfolding take_job
  taken w = rw (one_hit, job_of-claimed, valid_claimed c j w)

  claim_found :
      valid_job j ≡ true
      → All (λ a. (a.id == c.attempt_id) ≡ false) db.attempts
      → claim_next type c db ≡ (ok (some (claimed_row c j)), claimed_db c j db)
  unfolding claim_next
  claim_found w f =
      rw (found, no_clash c j db.attempts db.attempts f (last_generation-bounds j.id db.attempts))
        (taken w)

-- The claim of the row j, and what holds of it.
pub record Takes (type : JobType) (c : Claim) (db : Db) (j : Job) : Type 0 where
  pub was_there : job_of j.id db ≡ some j
  pub was_claimable : claimable type j ≡ true
  pub earliest : All (λ x. claimable type x ≡ true → earlier x j ≡ false) db.jobs
  pub outcome : claim_next type c db ≡ (ok (some (claimed_row c j)), claimed_db c j db)
  pub now_there : job_of j.id (claimed_db c j db) ≡ some (claimed_row c j)
  pub newest :
      All
        (λ a. (a.job_id == j.id) ≡ true → a.generation < (new_attempt c j db.attempts).generation)
        db.attempts

above :
    (job n : ℕ) (xs : List Attempt)
    → All (λ a. (a.job_id == job) ≡ true → a.generation ≤ n) xs
    → All (λ a. (a.job_id == job) ≡ true → a.generation < n + 1) xs
above job n [] h = tt
above job n (x ∷ xs) h = (λ t. omega (arith, h.0 t), above job n xs h.1)

-- On tables of valid rows with distinct ids, and with a fresh attempt id: either no job of the type
-- is queued, and the claim returns none and changes nothing; or it takes the queued job of the type
-- that no other precedes by creation time and id, which is then running under the new attempt, and
-- the generation of that attempt is greater than that of every earlier attempt at the job.
pub claim_next-outcome :
    (type : JobType) (c : Claim) (db : Db)
    → Inv db.jobs
    → All (λ j. valid_job j ≡ true) db.jobs
    → All (λ a. (a.id == c.attempt_id) ≡ false) db.attempts
    → (All (λ j. claimable type j ≡ false) db.jobs × (claim_next type c db ≡ (ok none, db)))
      ⊎ ((j : Job) × Takes type c db j)
unfolding claim_next new_attempt
claim_next-outcome type c db v w f = elim (Option-cases (first_row (claimable type) db.jobs)) [
  | inl e ↦ inl (no_row (claimable type) db.jobs e, rw e)
  | inr (j, e) ↦
      let there = find_row (claimable type) db.jobs j v.distinct e in
      let is_first = first_row-IsFirst (claimable type) db.jobs j e in
      inr (
        j,
        record {
          was_there = there;
          was_claimable = is_first.passes;
          earliest = is_first.first;
          outcome =
              claim_found type c db j v e
                (All-find (λ x. valid_job x ≡ true) (λ x. x.id == j.id) db.jobs j w there) f;
          now_there = job_of-claimed type c db j v e;
          newest =
              above j.id (last_generation j.id db.attempts) db.attempts
                (last_generation-bounds j.id db.attempts);
        },
      )
]

some_eq : {a b : Job} → some a ≡ some b → a ≡ b
some_eq e = cc

running_not_claimable :
    (type : JobType) (c : Claim) (j : Job) → claimable type (claimed_row c j) ≡ false
running_not_claimable type c j = ground arith

apart_by_claim :
    (type other : JobType) (c d : Claim) (db : Db) (j k : Job)
    → Takes type c db j
    → Takes other d (claimed_db c j db) k
    → j.id ≢ k.id
apart_by_claim type other c d db j k s t e =
    let same : claimed_row c j ≡ k =
      some_eq (
        sym s.now_there ∙ subst (λ n. job_of n (claimed_db c j db) ≡ some k) (sym e) t.was_there) in
    absurd (
      cc (
        sym (running_not_claimable other c j)
        ∙ subst (λ x. claimable other x ≡ true) (sym same) t.was_claimable))

claimed_rows-valid :
    (c : Claim) (hit : Job → Bool) (xs : List Job)
    → All (λ j. valid_job j ≡ true) xs
    → All (λ j. valid_job j ≡ true) (update_where hit (claimed_row c) xs)
claimed_rows-valid c hit [] w = tt
claimed_rows-valid c hit (x ∷ xs) w = elim (Bool-cases (hit x)) [
  | inl t ↦ rw t (valid_claimed c x w.0, claimed_rows-valid c hit xs w.1)
  | inr f ↦ rw f (w.0, claimed_rows-valid c hit xs w.1)
]

All-snoc :
    (p : Attempt → Bool) (xs : List Attempt) (a : Attempt)
    → All (λ x. p x ≡ false) xs
    → p a ≡ false
    → All (λ x. p x ≡ false) (xs ++ a ∷ [])
All-snoc p [] a h q = (q, tt)
All-snoc p (x ∷ xs) a h q = (h.0, All-snoc p xs a h.1 q)

ok_some : {a b : Job} → ok (some a) ≡ ok (some b) → a ≡ b
ok_some h = cc

ok_none : {A : Type 0} {a : Job} → ok none ≡ ok (some a) → A
ok_none h = absurd (cc h)

-- On tables of valid rows with distinct ids, two claims in a row with fresh attempt ids, whatever
-- types they ask for, never take the same job.
pub claims_differ :
    (type other : JobType) (c d : Claim) (db : Db) (x y : Job)
    → Inv db.jobs
    → All (λ j. valid_job j ≡ true) db.jobs
    → All (λ a. (a.id == c.attempt_id) ≡ false) db.attempts
    → All (λ a. (a.id == d.attempt_id) ≡ false) db.attempts
    → (c.attempt_id == d.attempt_id) ≡ false
    → (claim_next type c db).0 ≡ ok (some x)
    → (claim_next other d (claim_next type c db).1).0 ≡ ok (some y)
    → x.id ≢ y.id
claims_differ type other c d db x y v w f g n h k = elim (claim_next-outcome type c db v w f) [
  | inl (a, e) ↦ ok_none (rw e at h)
  | inr (i, s) ↦
      let after : Inv (claimed_db c i db).jobs =
        rw s.outcome at (Safe-Inv (claim_next-Safe type c db) v) in
      let valid = claimed_rows-valid c (written i.id (some queued) none) db.jobs w in
      let fresh =
        All-snoc (λ a. a.id == d.attempt_id) db.attempts (new_attempt c i db.attempts) g
          (unfold new_attempt in n) in
      let first : i.id ≡ x.id = ap (λ z. z.id) (ok_some (rw s.outcome at h)) in
      elim (claim_next-outcome other d (claimed_db c i db) after valid fresh) [
        | inl (a, e) ↦ ok_none (rw (s.outcome, e) at k)
        | inr (l, t) ↦
            let second : l.id ≡ y.id = ap (λ z. z.id) (ok_some (rw (s.outcome, t.outcome) at k)) in
            λ same. apart_by_claim type other c d db i l s t (first ∙ (same ∙ sym second))
      ]
]

module _ (id : ℕ) (attempt : ℕ) (db : Db) (j : Job) (e : job_of id db ≡ some j)
    (w : valid_job j ≡ true) (stale : opt_eq j.current_attempt_id (some attempt) ≡ false) where
  no_heartbeat :
      (generation : Option ℕ) (now : ℕ)
      → heartbeat id (some attempt) generation now db ≡ (err conflict, db)
  unfolding heartbeat
  no_heartbeat generation now =
      >>=-ok (get id)
        (λ seen.
          refuse_if (other_attempt (some attempt) seen) conflict
          >> (require_generation id generation >> beat_seen id now seen))
        db db j (get_lem id db j e w)
      ∙ >>=-err (refuse_if (other_attempt (some attempt) j) conflict)
          (λ _. require_generation id generation >> beat_seen id now j) db db conflict (rw stale)

  not_current : require_current_attempt id attempt db ≡ (err conflict, db)
  unfolding require_current_attempt
  not_current = rw (e, stale)

  -- An attempt that is not the current one of a valid job that is there can neither keep the job
  -- alive nor reserve nor publish an artifact: each call is refused with a conflict and changes no
  -- table.
  pub superseded :
      (sha256 : String → String) (generation : Option ℕ) (now : ℕ) (key manifest hash : String)
      → (heartbeat id (some attempt) generation now db ≡ (err conflict, db))
        × (reserve_publication sha256 key id attempt manifest db ≡ (err conflict, db))
        × (publish_publication key id attempt hash now db ≡ (err conflict, db))
  unfolding reserve_publication publish_publication
  superseded sha256 generation now key manifest hash = (
    no_heartbeat generation now,
    >>=-err (require_current_attempt id attempt)
        (λ _. reserve_new sha256 (reservation sha256 key id attempt manifest)) db db conflict
        not_current,
    >>=-err (require_current_attempt id attempt) (λ _. publish_rows key id attempt hash now) db db
        conflict not_current,
  )
