-- ===== src/Scheduler/Faults.antt =====
-- What a refused call of scheduler/service.py leaves behind, and what a rerun does to each item.
use ppt_video_workbench_v.Base.{
  ap, Bool, if◌then◌else◌, ℕ, ◌+◌, ◌≡◌, refl, String, List, [], ◌∷◌, Option, none, some, true,
  false, not, ◌&&◌, ◌==◌, any, map, count_where, arith, Bool-cases, inl, inr,
}
use ppt_video_workbench_v.Jobs.Store.{Db, Result, ok, err}
use ppt_video_workbench_v.Jobs.Enqueue.{Draw}
use ppt_video_workbench_v.Scheduler.Batch.{
  BatchStatus, BatchItemStatus, BatchItem, BatchProduction, BatchDispatchRequest, same_item_status,
}
use ppt_video_workbench_v.Scheduler.Dispatch.{Run, dispatch_items}
use ppt_video_workbench_v.Scheduler.Service.{
  Scheduler, Answer, answer, fault, batch_of, requested, rerun_item, requeued, wrongly_requested,
  distinct_count, sync, sync_found, rerun_failed, rerun_found, dispatch, dispatch_found,
  dispatch_with, finish_dispatch, keep_batch, with_hash, put_batch, os_error,
}

-- What a call that raised leaves: where a file could not be written, the batches with a new one
-- stored under its id, and else the batches as they were. Nothing is said of a call that answered.
abbrev pub Keeps :
    (BatchProduction → String)
    → (BatchProduction → Bool)
    → {A : Type 0} → Scheduler
    → Answer A × Scheduler
    → Type 0
Keeps sha256 saves s (answer a, after) = Unit
Keeps sha256 saves s (fault os_error, after) =
    (c : BatchProduction) × (saves (with_hash sha256 saves c) ≡ false)
    × (after.batches ≡ put_batch (with_hash sha256 saves c) s.batches)
Keeps sha256 saves s (fault e, after) = after.batches ≡ s.batches

module _ (sha256 : BatchProduction → String) (saves : BatchProduction → Bool) (text_of : ℕ → String)
    (payload_of : BatchProduction → BatchItem → String) where
  kept-Keeps :
      {A : Type 0} (a : A) (b : BatchProduction) (s t : Scheduler)
      → t.batches ≡ s.batches
      → Keeps sha256 saves s (keep_batch sha256 saves a b t)
  kept-Keeps a b s t e = elim (Bool-cases (saves (with_hash sha256 saves b))) [
    | inl w ↦ rw w tt
    | inr w ↦ rw w (b, w, ap (put_batch (with_hash sha256 saves b)) e)
  ]

  sync-Keeps :
      (o : Option BatchProduction) (s : Scheduler)
      → Keeps sha256 saves s (sync_found sha256 saves o s)
  sync-Keeps none s = refl
  sync-Keeps (some b) s = kept-Keeps _ _ s s refl

  rerun-Keeps :
      (ids : List ℕ) (o : Option BatchProduction) (s : Scheduler)
      → Keeps sha256 saves s (rerun_found sha256 saves ids o s)
  rerun-Keeps ids none s = refl
  rerun-Keeps ids (some b) s = elim (Bool-cases (any (wrongly_requested ids) b.items)) [
    | inl w ↦ rw w refl
    | inr n ↦ elim (Bool-cases (not (count_where (requested ids) b.items == distinct_count ids))) [
      | inl c ↦ rw (n, c) refl
      | inr c ↦ rw (n, c) (kept-Keeps _ _ s s refl)
    ]
  ]

  finish-Keeps :
      (b : BatchProduction) (r : Result Run × Db) (s : Scheduler)
      → Keeps sha256 saves s (finish_dispatch sha256 saves text_of payload_of b r s)
  finish-Keeps b (err x, db) s = refl
  finish-Keeps b (ok x, db) s = kept-Keeps _ _ s (record s { repository = some db }) refl

  with-Keeps :
      (b : BatchProduction) (request : BatchDispatchRequest) (draws : BatchItem → Draw)
      (o : Option Db) (s : Scheduler)
      → Keeps sha256 saves s (dispatch_with sha256 saves text_of payload_of b request draws o s)
  with-Keeps b request draws none s = refl
  with-Keeps b request draws (some db) s =
      finish-Keeps b (dispatch_items text_of payload_of b request draws db) s

  found-Keeps :
      (request : BatchDispatchRequest) (draws : BatchItem → Draw) (o : Option BatchProduction)
      (s : Scheduler)
      → Keeps sha256 saves s (dispatch_found sha256 saves text_of payload_of request draws o s)
  found-Keeps request draws none s = refl
  found-Keeps request draws (some b) s =
      elim (Bool-cases (b.night_queue && not request.allow_night)) [
        | inl n ↦ rw n tt
        | inr d ↦ rw d (with-Keeps b request draws s.repository s)
      ]

  -- A dispatch, a sync or a rerun that raises leaves every batch of the service as it was, unless
  -- what it raises is that the file of the new batch could not be written: then that batch is in
  -- the dictionary all the same, in place of the one with its id.
  pub faults_keep_batches :
      (id : ℕ) (ids : List ℕ) (request : BatchDispatchRequest) (draws : BatchItem → Draw)
      (s : Scheduler)
      → Keeps sha256 saves s (dispatch sha256 saves text_of payload_of id request draws s)
        × Keeps sha256 saves s (sync sha256 saves id s)
        × Keeps sha256 saves s (rerun_failed sha256 saves id ids s)
  unfolding dispatch sync rerun_failed
  faults_keep_batches id ids request draws s = (
    found-Keeps request draws (batch_of id s) s,
    sync-Keeps (batch_of id s) s,
    rerun-Keeps ids (batch_of id s) s,
  )

-- What a rerun makes of an item: one that was asked for had failed and is queued with no job and no
-- error, its other fields kept; any other stays.
pub data Reruns (ids : List ℕ) (i : BatchItem) : BatchItem → Type 0 where
  left_alone : {j : BatchItem} → requested ids i ≡ false → j ≡ i → Reruns ids i j
  put_back :
      {j : BatchItem}
      → requested ids i ≡ true
      → i.status ≡ BatchItemStatus.failed
      → j ≡ requeued i
      → Reruns ids i j

abbrev pub Items : (BatchItem → BatchItem → Type 0) → List BatchItem → List BatchItem → Type 0
Items R [] [] = Unit
Items R [] (y ∷ ys) = ⊥
Items R (x ∷ xs) [] = ⊥
Items R (x ∷ xs) (y ∷ ys) = R x y × Items R xs ys

rerun_item-Reruns :
    (ids : List ℕ) (i : BatchItem)
    → wrongly_requested ids i ≡ false
    → Reruns ids i (rerun_item ids i)
rerun_item-Reruns ids i h = elim (Bool-cases (requested ids i)) [
  | inl t ↦ rw t (put_back t (was_failed i.status (rw t at h)) refl)
  | inr f ↦ rw f (left_alone f refl)
]
  where
    was_failed :
        (s : BatchItemStatus)
        → not (same_item_status s BatchItemStatus.failed) ≡ false
        → s ≡ BatchItemStatus.failed
    was_failed s k = ground arith

Items-Reruns :
    (ids : List ℕ) (xs : List BatchItem)
    → any (wrongly_requested ids) xs ≡ false
    → Items (Reruns ids) xs (map (rerun_item ids) xs)
Items-Reruns ids [] h = tt
Items-Reruns ids (x ∷ xs) h =
    (rerun_item-Reruns ids x (ground arith), Items-Reruns ids xs (ground arith))

-- What a rerun that answered says of the batch it found.
pub record Reran (ids : List ℕ) (b c : BatchProduction) : Type 0 where
  pub items_rerun : Items (Reruns ids) b.items c.items
  pub all_found : count_where (requested ids) b.items ≡ distinct_count ids
  pub is_partial : c.status ≡ BatchStatus.partial
  pub next_revision : c.revision ≡ b.revision + 1
  pub same_batch : c.batch_id ≡ b.batch_id

kept_answer :
    {a c : BatchProduction} (written : Bool)
    → (if written then answer a else fault os_error) ≡ answer c
    → c ≡ a
kept_answer true h = cc
kept_answer false h = absurd (cc h)

-- When a rerun of a batch that the service keeps answers, every item asked for had failed and is
-- queued again with no job and no error, every other item is as it was, as many items were matched as
-- there are distinct ids among those asked for, the batch is partial, and its revision is the next.
pub rerun_failed_lem :
    (sha256 : BatchProduction → String) (saves : BatchProduction → Bool) (id : ℕ) (ids : List ℕ)
    (s : Scheduler) (b c : BatchProduction)
    → batch_of id s ≡ some b
    → (rerun_failed sha256 saves id ids s).0 ≡ answer c
    → Reran ids b c
unfolding rerun_failed
rerun_failed_lem sha256 saves id ids s b c e h = go (rw e at h)
  where
    go : (rerun_found sha256 saves ids (some b) s).0 ≡ answer c → Reran ids b c
    go k = elim (Bool-cases (any (wrongly_requested ids) b.items)) [
      | inl w ↦ absurd (cc (rw w at k))
      | inr n ↦
          elim (Bool-cases (not (count_where (requested ids) b.items == distinct_count ids))) [
            | inl m ↦ absurd (cc (rw (n, m) at k))
            | inr m ↦ rw (kept_answer _ (rw (n, m) at k)) (record {
              items_rerun = Items-Reruns ids b.items n;
              all_found = ground arith;
              is_partial = refl;
              next_revision = refl;
              same_batch = refl;
            })
          ]
    ]
