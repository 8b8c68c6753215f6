-- ===== src/Jobs/LeaseLife.antt =====
-- The life of a resource lease in jobs/leases.py: active until it is released or lapses, then
-- final.
use ppt_video_workbench_v.Base.{
  ℕ, ◌+◌, ◌≡◌, refl, ◌⊎◌, inl, inr, String, List, [], ◌∷◌, ◌++◌, Bool, true, false, ◌==◌, any,
  Grows, update_where, count_where, arith, Bool-cases, and-eq_true, both_ways,
}
use ppt_video_workbench_v.Jobs.Status.{active}
use ppt_video_workbench_v.Jobs.Leases.{
  Lease, LeaseDb, LeaseRequest, WorkerCapability, is_live, works, worker_of, register_worker,
  heartbeat_worker, overdue, lapsed, reap_expired, new_lease, acquire, held, extended, heartbeat,
  given_back, release,
}

-- What one call may make of a lease: who holds what for which attempt stays, a lease that is no
-- longer active stays as it is, and a lease that changes has the next revision.
pub record Moves (a b : Lease) : Type 0 where
  pub same_id : b.id ≡ a.id
  pub same_job : b.job_id ≡ a.job_id
  pub same_attempt : b.attempt_id ≡ a.attempt_id
  pub same_worker : b.worker_id ≡ a.worker_id
  pub same_generation : b.generation ≡ a.generation
  pub same_request : b.request ≡ a.request
  pub final : is_live a.status ≡ false → b ≡ a
  pub stamped : (b ≡ a) ⊎ (b.revision ≡ a.revision + 1)

-- A lease that a call adds: active, at revision 1.
pub record Opens (l : Lease) : Type 0 where
  pub is_active : l.status ≡ active
  pub first_revision : l.revision ≡ 1

stays : (a : Lease) → Moves a a
stays a = record {
  same_id = refl;
  same_job = refl;
  same_attempt = refl;
  same_worker = refl;
  same_generation = refl;
  same_request = refl;
  final = λ _. refl;
  stamped = inl refl;
}

same_rows : (xs : List Lease) → Grows Moves Opens xs xs
same_rows [] = tt
same_rows (x ∷ xs) = (stays x, same_rows xs)

updated :
    (hit : Lease → Bool) (change : Lease → Lease) (xs : List Lease)
    → ((a : Lease) → hit a ≡ true → Moves a (change a))
    → Grows Moves Opens xs (update_where hit change xs)
updated hit change [] h = tt
updated hit change (x ∷ xs) h = elim (Bool-cases (hit x)) [
  | inl t ↦ rw t (h x t, updated hit change xs h)
  | inr f ↦ rw f (stays x, updated hit change xs h)
]

added :
    (new : Lease) (xs ys : List Lease)
    → Opens new
    → Grows Moves Opens xs ys
    → Grows Moves Opens xs (ys ++ new ∷ [])
added new [] [] n g = (n, tt)
added new [] (y ∷ ys) n g = (g.0, added new [] ys n g.1)
added new (x ∷ xs) [] n g = absurd g
added new (x ∷ xs) (y ∷ ys) n g = (g.0, added new xs ys n g.1)

lapsed-Moves : (now : ℕ) (a : Lease) → overdue now a ≡ true → Moves a (lapsed a)
lapsed-Moves now a h = record {
  same_id = refl;
  same_job = refl;
  same_attempt = refl;
  same_worker = refl;
  same_generation = refl;
  same_request = refl;
  final = λ e. absurd (both_ways _ (and-eq_true _ _ h).0 e);
  stamped = inr refl;
}

live_held : (id generation : ℕ) (a : Lease) → held id generation a ≡ true → is_live a.status ≡ true
live_held id generation a h = (and-eq_true _ _ (and-eq_true _ _ h).1).1

extended-Moves :
    (id generation ttl now : ℕ) (a : Lease)
    → held id generation a ≡ true
    → Moves a (extended ttl now a)
extended-Moves id generation ttl now a h = record {
  same_id = refl;
  same_job = refl;
  same_attempt = refl;
  same_worker = refl;
  same_generation = refl;
  same_request = refl;
  final = λ e. absurd (both_ways _ (live_held id generation a h) e);
  stamped = inr refl;
}

given_back-Moves :
    (id generation : ℕ) (a : Lease) → held id generation a ≡ true → Moves a (given_back a)
given_back-Moves id generation a h = record {
  same_id = refl;
  same_job = refl;
  same_attempt = refl;
  same_worker = refl;
  same_generation = refl;
  same_request = refl;
  final = λ e. absurd (both_ways _ (live_held id generation a h) e);
  stamped = inr refl;
}

pub data LeaseCall : Type 0 where
  registers : String → String → WorkerCapability → ℕ → LeaseCall
  worker_beats : String → ℕ → LeaseCall
  acquires : LeaseRequest → ℕ → ℕ → LeaseCall
  beats : ℕ → ℕ → ℕ → ℕ → LeaseCall
  releases : ℕ → ℕ → LeaseCall
  reaps : ℕ → LeaseCall

pub step : LeaseDb → LeaseCall → LeaseDb
step db (registers id fingerprint capabilities now) =
    (register_worker id fingerprint capabilities now db).1
step db (worker_beats id now) = (heartbeat_worker id now db).1
step db (acquires r lease_id now) = (acquire r lease_id now db).1
step db (beats id generation ttl now) = (heartbeat id generation ttl now db).1
step db (releases id generation) = (release id generation db).1
step db (reaps now) = (reap_expired now db).1

acquire-Grows :
    (db : LeaseDb) (r : LeaseRequest) (lease_id now : ℕ)
    → Grows Moves Opens db.leases (acquire r lease_id now db).1.leases
unfolding acquire
acquire-Grows db r lease_id now = elim (Bool-cases (works (worker_of r.worker_id db))) [
  | inl at_work ↦ elim (Bool-cases (any (λ l. l.id == lease_id) db.leases)) [
    | inl clash ↦ rw (at_work, clash) (same_rows db.leases)
    | inr free ↦
        rw (at_work, free)
          (added (new_lease r lease_id now) db.leases (update_where (overdue now) lapsed db.leases)
            (record { is_active = refl; first_revision = refl })
            (updated (overdue now) lapsed db.leases (lapsed-Moves now)))
  ]
  | inr idle ↦ rw idle (same_rows db.leases)
]

heartbeat-Grows :
    (id generation ttl now : ℕ) (db : LeaseDb)
    → Grows Moves Opens db.leases (heartbeat id generation ttl now db).1.leases
unfolding heartbeat
heartbeat-Grows id generation ttl now db =
    elim (Bool-cases (count_where (held id generation) db.leases == 1)) [
      | inl one ↦ rw one (
          updated (held id generation) (extended ttl now) db.leases
            (extended-Moves id generation ttl now))
      | inr other ↦ rw other (same_rows db.leases)
    ]

release-Grows :
    (id generation : ℕ) (db : LeaseDb)
    → Grows Moves Opens db.leases (release id generation db).1.leases
unfolding release
release-Grows id generation db =
    elim (Bool-cases (count_where (held id generation) db.leases == 0)) [
      | inl no_hit ↦ rw no_hit (same_rows db.leases)
      | inr hit ↦
          rw hit
            (updated (held id generation) given_back db.leases (given_back-Moves id generation))
    ]

heartbeat_worker-leases :
    (id : String) (now : ℕ) (db : LeaseDb) → (heartbeat_worker id now db).1.leases ≡ db.leases
unfolding heartbeat_worker
heartbeat_worker-leases id now db = ground arith

-- Whatever method of the lease service is called, every lease there was stays in its place with its
-- worker, job, attempt, generation and request; one that was released or expired does not change at
-- all; one that changes takes the next revision; and any lease added is active, at revision 1.
pub step-Grows : (db : LeaseDb) (c : LeaseCall) → Grows Moves Opens db.leases (step db c).leases
unfolding step register_worker reap_expired
step-Grows db (registers id fingerprint capabilities now) = same_rows db.leases
step-Grows db (worker_beats id now) = rw (heartbeat_worker-leases id now db) (same_rows db.leases)
step-Grows db (acquires r lease_id now) = acquire-Grows db r lease_id now
step-Grows db (beats id generation ttl now) = heartbeat-Grows id generation ttl now db
step-Grows db (releases id generation) = release-Grows id generation db
step-Grows db (reaps now) = updated (overdue now) lapsed db.leases (lapsed-Moves now)
