-- ===== src/Scheduler/Service.antt =====
-- BatchSchedulerService of scheduler/service.py: the batches it keeps, and its calls. The digest of
-- a batch, the texts of ids and payloads, and whether the file of a batch can be written are
-- parameters. The files are read only for batches that the dictionary lacks, and are not modelled.
use ppt_video_workbench_v.Base.{
  ℕ, ◌+◌, String, List, [], ◌∷◌, ◌++◌, Option, none, some, Bool, not, ◌&&◌, ◌==◌, any, all, find,
  map, count_where, min, is_empty, fits_in, if◌then◌else◌,
}
use ppt_video_workbench_v.Jobs.Store.{Db, JobError, Result, ok, err, validation}
use ppt_video_workbench_v.Jobs.Enqueue.{Draw}
use ppt_video_workbench_v.Scheduler.Batch.{
  BatchStatus, BatchItemStatus, BatchResourceLimits, BatchItem, BatchProduction,
  BatchDispatchRequest, item_is,
}
use ppt_video_workbench_v.Scheduler.Dispatch.{Run, dispatch_items}
use ppt_video_workbench_v.Scheduler.Status.{sync_status}

-- `KeyError`, `SchedulerConflict`, `SchedulerError`, the `OSError` of writing a file, and what the
-- job repository raises.
pub data SchedulerFault : Type 0 where
  unknown_key scheduler_conflict scheduler_error os_error : SchedulerFault
  from_jobs : JobError → SchedulerFault

pub data Answer {ℓ} (A : Type ℓ) : Type ℓ where
  answer : A → Answer A
  fault : SchedulerFault → Answer A

-- The service: its batches, and the tables of its job repository if it has one.
pub record Scheduler : Type 0 where
  pub batches : List BatchProduction
  pub repository : Option Db

pub record BatchDispatchResult : Type 0 where
  pub batch : BatchProduction
  pub dispatched_item_ids : List ℕ

abbrev pub batch_of : ℕ → Scheduler → Option BatchProduction
batch_of id s = find (λ b. b.batch_id == id) s.batches

-- Assignment to a key of the dictionary.
abbrev pub put_batch : BatchProduction → List BatchProduction → List BatchProduction
put_batch b [] = b ∷ []
put_batch b (x ∷ xs) =
    let rest = put_batch b xs in if x.batch_id == b.batch_id then b ∷ xs else x ∷ rest

-- An item that a rerun puts back in the queue.
abbrev pub requeued : BatchItem → BatchItem
requeued i = record i { status = BatchItemStatus.queued; job_id = none; error = none }

abbrev pub requested : List ℕ → BatchItem → Bool
requested ids i = any (λ id. id == i.item_id) ids

abbrev pub rerun_item : List ℕ → BatchItem → BatchItem
rerun_item ids i = if requested ids i then requeued i else i

abbrev pub rerun_batch : List ℕ → BatchProduction → BatchProduction
rerun_batch ids b = record b { items = map (rerun_item ids) b.items; status = BatchStatus.partial }

-- A requested item that has not failed: what the loop of `rerun_failed` raises on.
abbrev pub wrongly_requested : List ℕ → BatchItem → Bool
wrongly_requested ids i = requested ids i && not (item_is BatchItemStatus.failed i)

-- `len(set(ids))`
unfoldable pub distinct_count : List ℕ → ℕ
distinct_count [] = 0
distinct_count (id ∷ ids) =
    let rest = distinct_count ids in if any (λ k. k == id) ids then rest else rest + 1

-- `batch.revision += 1`, on the batch that the caller returns.
abbrev pub bumped : BatchProduction → BatchProduction
bumped b = record b { revision = b.revision + 1 }

abbrev pub targets : List ℕ → List (Option ℕ)
targets [] = none ∷ []
targets (p ∷ ps) = map some (p ∷ ps)

abbrev pub pairs_with : String → List (Option ℕ) → List (String × Option ℕ)
pairs_with preset pages = map (λ page. (preset, page)) pages

abbrev pub pairs : List String → List (Option ℕ) → List (String × Option ℕ)
pairs [] pages = []
pairs (preset ∷ presets) pages = pairs_with preset pages ++ pairs presets pages

pub record BatchCreateRequest : Type 0 where
  pub preset_ids : List String
  pub page_ids : List ℕ
  pub priority : ℕ
  pub night_queue : Bool
  pub resource_limits : BatchResourceLimits

abbrev pub new_item : BatchCreateRequest → ℕ → String × Option ℕ → BatchItem
new_item r id (preset, page) = record {
  item_id = id;
  preset_id = preset;
  page_id = page;
  priority = r.priority;
  dependencies = [];
  resource_cpu = min r.resource_limits.cpu_cores 4;
  resource_memory_mb = min r.resource_limits.per_job_memory_mb r.resource_limits.memory_mb;
  resource_gpu = if r.resource_limits.gpu_slots == 0 then 0 else 1;
  status = BatchItemStatus.queued;
  job_id = none;
  attempts = 0;
  error = none;
}

-- The items in order, the n-th with the n-th id that the call draws.
abbrev pub new_items : BatchCreateRequest → (ℕ → ℕ) → ℕ → List (String × Option ℕ) → List BatchItem
new_items r ids n [] = []
new_items r ids n (p ∷ ps) = new_item r (ids n) p ∷ new_items r ids (n + 1) ps

-- The constraint on `preset_id` of an item.
abbrev pub valid_preset : String → Bool
valid_preset s = not (is_empty s) && fits_in 64 s

module _ (sha256 : BatchProduction → String) (saves : BatchProduction → Bool) where
  -- `_with_hash`
  abbrev pub with_hash : BatchProduction → BatchProduction
  with_hash b = record b { content_hash = sha256 b }

  -- The assignment to the dictionary, then `_persist`: where the file cannot be written, the call
  -- raises with the batch already in the dictionary.
  abbrev pub keep_batch : {A : Type 0} → A → BatchProduction → Scheduler → Answer A × Scheduler
  keep_batch a b s = (
    if saves (with_hash b) then answer a else fault os_error,
    record s { batches = put_batch (with_hash b) s.batches },
  )

  abbrev pub new_batch : ℕ → ℕ → ℕ → (ℕ → ℕ) → BatchCreateRequest → BatchProduction
  new_batch project id now ids r = record {
    revision = 1;
    batch_id = id;
    project_id = project;
    created_at = now;
    status = BatchStatus.queued;
    night_queue = r.night_queue;
    resource_limits = r.resource_limits;
    items = new_items r ids 0 (pairs r.preset_ids (targets r.page_ids));
    content_hash = "";
  }

  unfoldable pub create :
      (String → Bool)
      → ℕ
      → ℕ
      → ℕ
      → (ℕ → ℕ)
      → BatchCreateRequest
      → Scheduler
      → Answer BatchProduction × Scheduler
  create preset_exists project id now ids r s =
      if not (all preset_exists r.preset_ids)
      then (fault scheduler_error, s)
      else if not (all valid_preset r.preset_ids)
      then (fault (from_jobs validation), s)
      else keep_batch (with_hash (new_batch project id now ids r)) (new_batch project id now ids r)
          s

  abbrev pub sync_found : Option BatchProduction → Scheduler → Answer BatchProduction × Scheduler
  sync_found none s = (fault unknown_key, s)
  sync_found (some b) s = let c = bumped (sync_status s.repository b) in keep_batch c c s

  unfoldable pub sync : ℕ → Scheduler → Answer BatchProduction × Scheduler
  unfolding sync_status
  sync id s = sync_found (batch_of id s) s

  abbrev pub rerun_found :
      List ℕ → Option BatchProduction → Scheduler → Answer BatchProduction × Scheduler
  rerun_found ids none s = (fault unknown_key, s)
  rerun_found ids (some b) s =
      if any (wrongly_requested ids) b.items
      then (fault scheduler_conflict, s)
      else if not (count_where (requested ids) b.items == distinct_count ids)
      then (fault unknown_key, s)
      else keep_batch (bumped (rerun_batch ids b)) (bumped (rerun_batch ids b)) s

  unfoldable pub rerun_failed : ℕ → List ℕ → Scheduler → Answer BatchProduction × Scheduler
  unfolding distinct_count
  rerun_failed id ids s = rerun_found ids (batch_of id s) s

  module _ (text_of : ℕ → String) (payload_of : BatchProduction → BatchItem → String) where
    -- What follows the loop, with the tables of jobs after it.
    abbrev pub finish_dispatch :
        BatchProduction → Result Run × Db → Scheduler → Answer BatchDispatchResult × Scheduler
    finish_dispatch b (err e, db) s = (fault (from_jobs e), record s { repository = some db })
    finish_dispatch b (ok run, db) s =
        let c = bumped (sync_status (some db) (record b { items = run.items })) in
        keep_batch (record { batch = c; dispatched_item_ids = map (λ i. i.item_id) run.dispatched })
          c (record s { repository = some db })

    abbrev pub dispatch_with :
        BatchProduction
        → BatchDispatchRequest
        → (BatchItem → Draw)
        → Option Db
        → Scheduler
        → Answer BatchDispatchResult × Scheduler
    dispatch_with b request draws none s = (fault scheduler_error, s)
    dispatch_with b request draws (some db) s =
        finish_dispatch b (dispatch_items text_of payload_of b request draws db) s

    abbrev pub dispatch_found :
        BatchDispatchRequest
        → (BatchItem → Draw)
        → Option BatchProduction
        → Scheduler
        → Answer BatchDispatchResult × Scheduler
    dispatch_found request draws none s = (fault unknown_key, s)
    dispatch_found request draws (some b) s =
        if b.night_queue && not request.allow_night
        then (answer (record { batch = b; dispatched_item_ids = [] }), s)
        else dispatch_with b request draws s.repository s

    unfoldable pub dispatch :
        ℕ
        → BatchDispatchRequest
        → (BatchItem → Draw)
        → Scheduler
        → Answer BatchDispatchResult × Scheduler
    unfolding dispatch_items sync_status
    dispatch id request draws s = dispatch_found request draws (batch_of id s) s
