-- ===== src/Scheduler/Stored.antt =====
-- What scheduler/service.py stores of a batch, and what it answers.
use ppt_video_workbench_v.Base.{
  ℕ, ◌+◌, ◌≡◌, refl, subst, String, List, [], ◌∷◌, some, ◌==◌, find, find-key, ==_refl, Bool-cases,
  inl, inr, Bool, if◌then◌else◌,
}
use ppt_video_workbench_v.Scheduler.Batch.{BatchProduction}
use ppt_video_workbench_v.Scheduler.Status.{sync_status}
use ppt_video_workbench_v.Scheduler.Service.{
  Scheduler, answer, batch_of, put_batch, bumped, with_hash, sync, fault, os_error,
}

put_batch-find :
    (b : BatchProduction) (xs : List BatchProduction)
    → find (λ x. x.batch_id == b.batch_id) (put_batch b xs) ≡ some b
put_batch-find b [] = rw (==_refl b.batch_id) refl
put_batch-find b (x ∷ xs) = elim (Bool-cases (x.batch_id == b.batch_id)) [
  | inl t ↦ rw (t, ==_refl b.batch_id) refl
  | inr f ↦ rw (f, f) (put_batch-find b xs)
]

-- A sync of a batch that the service keeps makes a batch with the next revision and stores it,
-- with its digest, under the id. It answers that batch, unless its file cannot be written: then it
-- raises an OSError, with the batch stored in the dictionary. But the content hash in the answer
-- is still that of the batch before.
pub sync_stored :
    (sha256 : BatchProduction → String) (saves : BatchProduction → Bool) (id : ℕ) (s : Scheduler)
    (b : BatchProduction)
    → batch_of id s ≡ some b
    → (c : BatchProduction) × ((sync sha256 saves id s).0
        ≡ (if saves (with_hash sha256 saves c) then answer c else fault os_error))
      × (batch_of id (sync sha256 saves id s).1 ≡ some (with_hash sha256 saves c))
      × (c.revision ≡ b.revision + 1)
      × (c.content_hash ≡ b.content_hash)
unfolding sync sync_status
sync_stored sha256 saves id s b e =
    let c = bumped (sync_status s.repository b) in
    let same : b.batch_id ≡ id = find-key (λ (x : BatchProduction). x.batch_id) id s.batches b e in
    (
      c,
      rw e refl,
      rw e (
          subst
            (λ k.
              find (λ x. x.batch_id == k) (put_batch (with_hash sha256 saves c) s.batches)
              ≡ some (with_hash sha256 saves c))
            same (put_batch-find (with_hash sha256 saves c) s.batches)),
      refl,
      refl,
    )
