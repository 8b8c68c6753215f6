-- ===== src/Scheduler/Status.antt =====
-- `_sync_status` of scheduler/service.py: the items follow their jobs, the batch follows its items.
use ppt_video_workbench_v.Base.{
  ℕ, String, List, Option, none, some, Bool, not, ◌&&◌, ◌||◌, any, all, map, if◌then◌else◌,
}
use ppt_video_workbench_v.Jobs.Status.{JobStatus}
use ppt_video_workbench_v.Jobs.Record.{Job}
use ppt_video_workbench_v.Jobs.Store.{Db, Result, ok, err}
use ppt_video_workbench_v.Jobs.Access.{get}
use ppt_video_workbench_v.Scheduler.Batch.{
  BatchStatus, BatchItemStatus, BatchItem, BatchProduction, item_is, holds,
}

-- The mapping of a job's status, with the item's own where it has none.
unfoldable pub mapped : JobStatus → BatchItemStatus → BatchItemStatus
mapped JobStatus.queued old = BatchItemStatus.dispatched
mapped JobStatus.running old = BatchItemStatus.running
mapped JobStatus.succeeded old = BatchItemStatus.succeeded
mapped JobStatus.failed old = BatchItemStatus.failed
mapped JobStatus.cancelled old = BatchItemStatus.cancelled
mapped _ old = old

abbrev pub error_of : BatchItemStatus → Job → Option String → Option String
error_of BatchItemStatus.failed j old = j.error
error_of _ j old = old

abbrev pub followed : Job → BatchItem → BatchItem
followed j i =
    let status = mapped j.status i.status in
    record i { status = status; error = error_of status j i.error }

abbrev pub follow_result : Result Job → BatchItem → BatchItem
follow_result (ok j) i = followed j i
follow_result (err e) i = i

abbrev pub follow_job : Db → Option ℕ → BatchItem → BatchItem
follow_job db none i = i
follow_job db (some id) i = follow_result (get id db).0 i

abbrev pub followed_items : Option Db → List BatchItem → List BatchItem
followed_items none items = items
followed_items (some db) items = map (λ i. follow_job db i.job_id i) items

abbrev pub waits : BatchItem → Bool
waits i = item_is BatchItemStatus.queued i || holds i

-- The chain of conditions on the set of the items' statuses.
unfoldable pub derived : List BatchItem → BatchStatus → BatchStatus
derived items old =
    if any (item_is BatchItemStatus.succeeded) items
      && all (item_is BatchItemStatus.succeeded) items
    then BatchStatus.succeeded
    else if any (item_is BatchItemStatus.failed) items && not (any waits items)
    then BatchStatus.failed
    else if any (item_is BatchItemStatus.running) items
        || any (item_is BatchItemStatus.dispatched) items
    then BatchStatus.running
    else if any (item_is BatchItemStatus.failed) items
    then BatchStatus.partial
    else old

-- `_sync_status`; without a repository the items stay.
unfoldable pub sync_status : Option Db → BatchProduction → BatchProduction
unfolding get mapped derived
sync_status repository b =
    let items = followed_items repository b.items in
    record b { items = items; status = derived items b.status }
