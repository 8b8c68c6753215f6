-- ===== src/Scheduler/Batch.antt =====
-- scheduler/models.py: batches, their items and what a call may ask for.
use ppt_video_workbench_v.Base.{ℕ, String, List, Option, Bool, ◌==◌, ◌||◌}

pub data BatchStatus : Type 0 where
  queued running succeeded partial failed cancelled : BatchStatus

pub data BatchItemStatus : Type 0 where
  queued dispatched running succeeded failed cancelled : BatchItemStatus

abbrev item_code : BatchItemStatus → ℕ
item_code BatchItemStatus.queued = 0
item_code BatchItemStatus.dispatched = 1
item_code BatchItemStatus.running = 2
item_code BatchItemStatus.succeeded = 3
item_code BatchItemStatus.failed = 4
item_code BatchItemStatus.cancelled = 5

abbrev pub same_item_status : BatchItemStatus → BatchItemStatus → Bool
same_item_status a b = item_code a == item_code b

pub record BatchResourceLimits : Type 0 where
  pub max_parallel : ℕ
  pub cpu_cores : ℕ
  pub memory_mb : ℕ
  pub gpu_slots : ℕ
  pub per_job_memory_mb : ℕ

pub record BatchItem : Type 0 where
  pub item_id : ℕ
  pub preset_id : String
  pub page_id : Option ℕ
  pub priority : ℕ
  pub dependencies : List ℕ
  pub resource_cpu : ℕ
  pub resource_memory_mb : ℕ
  pub resource_gpu : ℕ
  pub status : BatchItemStatus
  pub job_id : Option ℕ
  pub attempts : ℕ
  pub error : Option String

pub record BatchProduction : Type 0 where
  pub revision : ℕ
  pub batch_id : ℕ
  pub project_id : ℕ
  pub created_at : ℕ
  pub status : BatchStatus
  pub night_queue : Bool
  pub resource_limits : BatchResourceLimits
  pub items : List BatchItem
  pub content_hash : String

pub record BatchDispatchRequest : Type 0 where
  pub allow_night : Bool
  pub available_cpu : Option ℕ
  pub available_memory_mb : Option ℕ
  pub available_gpu : Option ℕ

abbrev pub item_is : BatchItemStatus → BatchItem → Bool
item_is s i = same_item_status i.status s

-- Dispatched or running: it holds resources.
abbrev pub holds : BatchItem → Bool
holds i = item_is BatchItemStatus.dispatched i || item_is BatchItemStatus.running i
