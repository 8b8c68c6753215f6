-- ===== src/Scheduler/Outcome.antt =====
-- The status that a sync of scheduler/service.py gives to a batch.
use ppt_video_workbench_v.Base.{
  ◌≡◌, ◌≢◌, Option, refl, List, [], ◌∷◌, Bool, true, false, not, ◌&&◌, ◌||◌, any, all, arith,
  if◌then◌else◌,
}
use ppt_video_workbench_v.Scheduler.Batch.{
  BatchStatus, BatchItemStatus, BatchItem, BatchProduction, item_is, same_item_status,
}
use ppt_video_workbench_v.Scheduler.Status.{derived, waits, sync_status, followed_items}
use ppt_video_workbench_v.Jobs.Store.{Db}

or_false : (a b : Bool) → (a || b) ≡ false → (a ≡ false) × (b ≡ false)
or_false a b h = ground arith

shuffle : (a b c d : Bool) → ((not a && not b) && (not c && not d)) ≡ (not (a || c) && not (b || d))
shuffle a b c d = ground arith

-- What an item that waits for nothing may be: each test of its status by the others.
ended_item :
    (i : BatchItem)
    → waits i ≡ false
    → (item_is BatchItemStatus.running i ≡ false)
      × (item_is BatchItemStatus.dispatched i ≡ false)
      × (item_is BatchItemStatus.succeeded i
          ≡ (not (item_is BatchItemStatus.failed i) && not (item_is BatchItemStatus.cancelled i)))
ended_item i h = go i.status h
  where
    go :
        (s : BatchItemStatus)
        → (same_item_status s BatchItemStatus.queued
            || (same_item_status s BatchItemStatus.dispatched
                || same_item_status s BatchItemStatus.running))
          ≡ false
        → (same_item_status s BatchItemStatus.running ≡ false)
          × (same_item_status s BatchItemStatus.dispatched ≡ false)
          × (same_item_status s BatchItemStatus.succeeded ≡ (
              not (same_item_status s BatchItemStatus.failed)
              && not (same_item_status s BatchItemStatus.cancelled)))
    go BatchItemStatus.queued k = absurd (cc k)
    go BatchItemStatus.dispatched k = absurd (cc k)
    go BatchItemStatus.running k = absurd (cc k)
    go BatchItemStatus.succeeded k = (refl, refl, refl)
    go BatchItemStatus.failed k = (refl, refl, refl)
    go BatchItemStatus.cancelled k = (refl, refl, refl)

ended_items :
    (xs : List BatchItem)
    → any waits xs ≡ false
    → (any (item_is BatchItemStatus.running) xs ≡ false)
      × (any (item_is BatchItemStatus.dispatched) xs ≡ false)
      × (all (item_is BatchItemStatus.succeeded) xs ≡ (
          not (any (item_is BatchItemStatus.failed) xs)
          && not (any (item_is BatchItemStatus.cancelled) xs)))
ended_items [] h = (refl, refl, refl)
ended_items (x ∷ xs) h =
    let (a, b, c) = ended_item x (or_false _ _ h).0 in
    let (d, e, f) = ended_items xs (or_false _ _ h).1 in
    (rw (a, d) refl, rw (b, e) refl, rw (c, f) (shuffle _ _ _ _))

-- The verdict on a batch whose items have all ended, by whether one failed and one was cancelled.
abbrev pub outcome : Bool → Bool → BatchStatus → BatchStatus
outcome failed cancelled old =
    if failed then BatchStatus.failed else if cancelled then old else BatchStatus.succeeded

some_succeeded :
    (x : BatchItem) (xs : List BatchItem)
    → all (item_is BatchItemStatus.succeeded) (x ∷ xs) ≡ true
    → any (item_is BatchItemStatus.succeeded) (x ∷ xs) ≡ true
some_succeeded x xs h = ground arith

ended_items-derived :
    (x : BatchItem) (xs : List BatchItem) (old : BatchStatus)
    → any waits (x ∷ xs) ≡ false
    → derived (x ∷ xs) old
      ≡ outcome
          (any (item_is BatchItemStatus.failed) (x ∷ xs))
          (any (item_is BatchItemStatus.cancelled) (x ∷ xs))
          old
unfolding derived
ended_items-derived x xs old h =
    let (a, b, c) = ended_items (x ∷ xs) h in
    let s = some_succeeded x xs in ground (arith, a, b, c, s, h)

-- A batch that has items, none of which is queued, dispatched or running once they follow their jobs:
-- the status update of a sync makes it failed if an item failed, and succeeded if all succeeded; and
-- if items were cancelled but none failed, it leaves the status that the batch had.
pub ended_batch :
    (repository : Option Db) (b : BatchProduction)
    → (sync_status repository b).items ≢ []
    → any waits (sync_status repository b).items ≡ false
    → (sync_status repository b).status
      ≡ outcome
          (any (item_is BatchItemStatus.failed) (sync_status repository b).items)
          (any (item_is BatchItemStatus.cancelled) (sync_status repository b).items)
          b.status
unfolding sync_status
ended_batch repository b n h = go (followed_items repository b.items) n h
  where
    go :
        (xs : List BatchItem)
        → xs ≢ []
        → any waits xs ≡ false
        → derived xs b.status
          ≡ outcome
              (any (item_is BatchItemStatus.failed) xs)
              (any (item_is BatchItemStatus.cancelled) xs)
              b.status
    go [] m k = absurd (m refl)
    go (x ∷ xs) m k = ended_items-derived x xs b.status k
