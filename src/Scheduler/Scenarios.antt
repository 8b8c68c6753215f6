-- ===== src/Scheduler/Scenarios.antt =====
-- A batch of three items, and what the theorems say of it.
use ppt_video_workbench_v.Base.{
  ℕ, ◌+◌, ◌≢◌, Bool, any, ◌≡◌, refl, String, List, [], ◌∷◌, none, some, true, false, ◌==◌,
  if◌then◌else◌, keep, fits_in,
}
use ppt_video_workbench_v.Jobs.Record.{valid_job}
use ppt_video_workbench_v.Jobs.Store.{ok}
use ppt_video_workbench_v.Jobs.Enqueue.{
  Draw, enqueue_or_get, new_row, insert_job, wanted, clashes, is_indexed,
}
use ppt_video_workbench_v.Jobs.Fixtures.{with_jobs}
use ppt_video_workbench_v.Scheduler.Batch.{
  BatchStatus, BatchItemStatus, BatchItem, BatchProduction, BatchDispatchRequest, holds, item_is,
}
use ppt_video_workbench_v.Scheduler.Dispatch.{
  Run, room_of, usage_of, dispatch_items, dispatch_loop, verdict, is_done,
}
use ppt_video_workbench_v.Scheduler.Status.{sync_status, waits}
use ppt_video_workbench_v.Scheduler.Service.{
  Scheduler, answer, batch_of, bumped, rerun_batch, dispatch, sync, rerun_failed, with_hash,
  distinct_count, fault, os_error,
}
use ppt_video_workbench_v.Scheduler.Limits.{Accounts, dispatch_fits}
use ppt_video_workbench_v.Scheduler.Faults.{Keeps, faults_keep_batches, Reran, rerun_failed_lem}
use ppt_video_workbench_v.Scheduler.Outcome.{outcome, ended_batch}
use ppt_video_workbench_v.Scheduler.Stored.{sync_stored}

abbrev item_at : ℕ → BatchItemStatus → BatchItem
item_at id status = record {
  item_id = id;
  preset_id = "hd";
  page_id = none;
  priority = 50;
  dependencies = [];
  resource_cpu = 2;
  resource_memory_mb = 2048;
  resource_gpu = 0;
  status = status;
  job_id = none;
  attempts = 0;
  error = none;
}

abbrev batch_with : List BatchItem → BatchProduction
batch_with items = record {
  revision = 1;
  batch_id = 8;
  project_id = 7;
  created_at = 1;
  status = BatchStatus.running;
  night_queue = false;
  resource_limits = record {
    max_parallel = 2;
    cpu_cores = 4;
    memory_mb = 8192;
    gpu_slots = 0;
    per_job_memory_mb = 2048;
  };
  items = items;
  content_hash = "";
}

-- One item runs, two are queued: there is room for one of them.
abbrev batch : BatchProduction
batch = batch_with (
    item_at 1 BatchItemStatus.running
    ∷ item_at 2 BatchItemStatus.queued
    ∷ item_at 3 BatchItemStatus.queued
    ∷ [])

abbrev failed_batch : BatchProduction
failed_batch =
    batch_with (item_at 1 BatchItemStatus.failed ∷ item_at 2 BatchItemStatus.succeeded ∷ [])

abbrev request : BatchDispatchRequest
request = record {
  allow_night = false;
  available_cpu = none;
  available_memory_mb = none;
  available_gpu = none;
}

abbrev text : ℕ → String
text n = if n == 2 then "two" else "n"

abbrev payload : BatchProduction → BatchItem → String
payload b i = "{}"

abbrev draws : BatchItem → Draw
draws i = record { now = 5; job_id = 100 + i.item_id; suffix = "aa" }

abbrev digest_of : BatchProduction → String
digest_of b = "digest"

abbrev writable : BatchProduction → Bool
writable b = true

abbrev unwritable : BatchProduction → Bool
unwritable b = false

abbrev service : Scheduler
service = record { batches = failed_batch ∷ []; repository = some (with_jobs []) }

abbrev sent_out : Run
sent_out = record {
  items =
      item_at 1 BatchItemStatus.running
      ∷ record (item_at 2 BatchItemStatus.dispatched) { job_id = some 102; attempts = 1 }
      ∷ item_at 3 BatchItemStatus.queued
      ∷ [];
  usage = record { parallel = 2; cpu = 4; memory = 4096; gpu = 0 };
  dispatched = item_at 2 BatchItemStatus.queued ∷ [];
}

second_sent : (dispatch_items text payload batch request draws (with_jobs [])).0 ≡ ok sent_out
unfolding dispatch_items dispatch_loop verdict is_done enqueue_or_get new_row insert_job wanted
    clashes is_indexed valid_job fits_in
second_sent = refl

dispatch_fits_example :
    Accounts (room_of batch.resource_limits request) (usage_of (keep holds batch.items)) sent_out
dispatch_fits_example =
    dispatch_fits text payload batch request draws (with_jobs []) sent_out second_sent

faults_keep_batches_example :
    Keeps digest_of unwritable service
      (dispatch digest_of unwritable text payload 8 request draws service)
    × Keeps digest_of unwritable service (sync digest_of unwritable 8 service)
    × Keeps digest_of unwritable service (rerun_failed digest_of unwritable 8 (1 ∷ []) service)
faults_keep_batches_example =
    faults_keep_batches digest_of unwritable text payload 8 (1 ∷ []) request draws service

first_rerun :
    (rerun_failed digest_of writable 8 (1 ∷ []) service).0
    ≡ answer (bumped (rerun_batch (1 ∷ []) failed_batch))
unfolding rerun_failed distinct_count
first_rerun = refl

rerun_failed_lem_example : Reran (1 ∷ []) failed_batch (bumped (rerun_batch (1 ∷ []) failed_batch))
rerun_failed_lem_example =
    rerun_failed_lem digest_of writable 8 (1 ∷ []) service failed_batch
      (bumped (rerun_batch (1 ∷ []) failed_batch)) refl first_rerun

abbrev stopped : BatchProduction
stopped =
    batch_with (item_at 1 BatchItemStatus.succeeded ∷ item_at 2 BatchItemStatus.cancelled ∷ [])

stopped-cons : (sync_status none stopped).items ≢ []
unfolding sync_status
stopped-cons h = absurd (cc h)

stopped-ended : any waits (sync_status none stopped).items ≡ false
unfolding sync_status
stopped-ended = refl

ended_batch_example :
    (sync_status none stopped).status
    ≡ outcome
        (any (item_is BatchItemStatus.failed) (sync_status none stopped).items)
        (any (item_is BatchItemStatus.cancelled) (sync_status none stopped).items)
        BatchStatus.running
ended_batch_example = ended_batch none stopped stopped-cons stopped-ended

sync_stored_example :
    (c : BatchProduction) × ((sync digest_of writable 8 service).0
      ≡ (if true then answer c else fault os_error))
    × (batch_of 8 (sync digest_of writable 8 service).1 ≡ some (with_hash digest_of writable c))
    × (c.revision ≡ failed_batch.revision + 1)
    × (c.content_hash ≡ failed_batch.content_hash)
sync_stored_example = sync_stored digest_of writable 8 service failed_batch refl
