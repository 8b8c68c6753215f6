-- ===== src/Jobs/Record.antt =====
-- The rows of the job tables (storage/workspace_db.py), which the records of domain/models.py and
-- jobs/contracts.py mirror, and the validation that pydantic runs when a row becomes a record.
-- A UUID and a time stamp are numbers, a progress is a number of millionths.
use ppt_video_workbench_v.Base.{
  ℕ, String, Option, none, some, Bool, true, ◌&&◌, not, leb, fits_in, is_empty, is_digest,
}
use ppt_video_workbench_v.Base.Int.{ℤ, within}
use ppt_video_workbench_v.Jobs.Status.{JobStatus, JobType, AttemptStatus}

-- `jobs`, and `JobRecord`
pub record Job : Type 0 where
  pub id : ℕ
  pub project_id : ℕ
  pub job_type : JobType
  pub status : JobStatus
  pub cache_key : String
  pub page_id : Option ℕ
  pub progress : ℕ
  pub attempts : ℕ
  pub max_attempts : ℕ
  pub paid : Bool
  pub error : Option String
  pub created_at : ℕ
  pub updated_at : ℕ
  pub input_fingerprint : Option String
  pub idempotency_key : Option String
  pub parent_job_id : Option ℕ
  pub payload_json : String
  pub result_json : Option String
  pub stage : String
  pub message : String
  pub error_code : Option String
  pub revision : ℕ
  pub priority : ℤ
  pub current_attempt_id : Option ℕ
  pub heartbeat_at : Option ℕ
  pub started_at : Option ℕ
  pub finished_at : Option ℕ
  pub resource_wait : Option String

-- The progress 1.0.
abbrev pub whole : ℕ
whole = 1000000

abbrev pub optional {ℓ} : {A : Type ℓ} → (A → Bool) → Option A → Bool
optional test none = true
optional test (some a) = test a

abbrev sized : ℕ → String → Bool
sized n s = not (is_empty s) && fits_in n s

-- The field constraints of `JobRecord`.
unfoldable pub valid_job : Job → Bool
valid_job j =
    leb j.progress whole
    && (leb 1 j.max_attempts
        && (leb 1 j.revision && (within 100 j.priority && optional (fits_in 240) j.resource_wait)))

-- `job_attempts`, and `JobAttemptRecord`
pub record Attempt : Type 0 where
  pub id : ℕ
  pub job_id : ℕ
  pub generation : ℕ
  pub status : AttemptStatus
  pub worker_id : Option String
  pub runtime_fingerprint : Option String
  pub started_at : ℕ
  pub heartbeat_at : Option ℕ
  pub finished_at : Option ℕ
  pub exit_code : Option ℤ
  pub error_code : Option String
  pub checkpoint_sequence : Option ℕ
  pub revision : ℕ

-- The field constraints of `JobAttemptRecord`.
unfoldable pub valid_attempt : Attempt → Bool
valid_attempt a =
    leb 1 a.generation
    && (leb 1 a.revision
        && (optional (leb 1) a.checkpoint_sequence
            && (optional (sized 120) a.worker_id
                && (optional (sized 128) a.runtime_fingerprint
                    && optional (fits_in 96) a.error_code))))

-- `job_checkpoints`, and `JobCheckpointRecord`
pub record CheckpointRow : Type 0 where
  pub job_id : ℕ
  pub attempt_id : ℕ
  pub sequence : ℕ
  pub checkpoint_json : String
  pub checkpoint_hash : String
  pub created_at : ℕ

pub data PublicationState : Type 0 where
  reserved published corrupted : PublicationState

-- `artifact_publications`, and `ArtifactPublicationRecord`
pub record Publication : Type 0 where
  pub publication_key : String
  pub job_id : ℕ
  pub attempt_id : ℕ
  pub state : PublicationState
  pub manifest_json : String
  pub manifest_hash : String
  pub published_at : Option ℕ
  pub revision : ℕ

-- `ResourceRequest`: cores, megabytes, GPU slots, megabytes.
pub record ResourceRequest : Type 0 where
  pub cpu_cores : ℕ
  pub memory_mb : ℕ
  pub gpu_slots : ℕ
  pub disk_mb : ℕ

-- `ResourceRequest()`
abbrev pub default_request : ResourceRequest
default_request = record { cpu_cores = 1; memory_mb = 512; gpu_slots = 0; disk_mb = 512 }

-- The field constraints of `JobCheckpointRecord`.
unfoldable pub valid_checkpoint : CheckpointRow → Bool
valid_checkpoint c = leb 1 c.sequence && is_digest c.checkpoint_hash

-- The field constraints of `ArtifactPublicationRecord`.
unfoldable pub valid_publication : Publication → Bool
valid_publication p = sized 128 p.publication_key && (is_digest p.manifest_hash && leb 1 p.revision)
