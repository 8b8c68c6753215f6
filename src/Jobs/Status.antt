-- ===== src/Jobs/Status.antt =====
-- domain/enums.py and the status graph at the head of jobs/repository.py.
use ppt_video_workbench_v.Base.{ℕ, Bool, true, false, ◌==◌, ◌≡◌, arith}

pub data JobStatus : Type 0 where
  queued running pause_requested paused needs_confirmation : JobStatus
  cancel_requested succeeded failed cancelled : JobStatus

pub data JobType : Type 0 where
  parse_materials generate_narration transcribe_audio synthesize_page build_subtitles : JobType
  render_page export_package presenter_sync render_preview derive_asset build_proxy : JobType
  build_waveform translate_subtitles quality_scan render_export : JobType

pub data AttemptStatus : Type 0 where
  claimed running paused succeeded failed cancelled expired : AttemptStatus

pub data LeaseStatus : Type 0 where
  active released expired : LeaseStatus

pub data WorkerStatus : Type 0 where
  active draining offline : WorkerStatus

abbrev status_code : JobStatus → ℕ
status_code queued = 0
status_code JobStatus.running = 1
status_code pause_requested = 2
status_code JobStatus.paused = 3
status_code needs_confirmation = 4
status_code cancel_requested = 5
status_code JobStatus.succeeded = 6
status_code JobStatus.failed = 7
status_code JobStatus.cancelled = 8

abbrev pub same_status : JobStatus → JobStatus → Bool
same_status a b = status_code a == status_code b

abbrev type_code : JobType → ℕ
type_code parse_materials = 0
type_code generate_narration = 1
type_code transcribe_audio = 2
type_code synthesize_page = 3
type_code build_subtitles = 4
type_code render_page = 5
type_code export_package = 6
type_code presenter_sync = 7
type_code render_preview = 8
type_code derive_asset = 9
type_code build_proxy = 10
type_code build_waveform = 11
type_code translate_subtitles = 12
type_code quality_scan = 13
type_code render_export = 14

abbrev pub same_type : JobType → JobType → Bool
same_type a b = type_code a == type_code b

-- `ACTIVE_STATUSES`
unfoldable pub is_active : JobStatus → Bool
is_active queued = true
is_active JobStatus.running = true
is_active pause_requested = true
is_active JobStatus.paused = true
is_active cancel_requested = true
is_active _ = false

-- `target in ALLOWED_TRANSITIONS[status]`
unfoldable pub allowed : JobStatus → JobStatus → Bool
allowed queued JobStatus.running = true
allowed queued JobStatus.paused = true
allowed queued needs_confirmation = true
allowed queued JobStatus.cancelled = true
allowed JobStatus.running pause_requested = true
allowed JobStatus.running needs_confirmation = true
allowed JobStatus.running cancel_requested = true
allowed JobStatus.running JobStatus.succeeded = true
allowed JobStatus.running JobStatus.failed = true
allowed pause_requested JobStatus.paused = true
allowed pause_requested needs_confirmation = true
allowed pause_requested cancel_requested = true
allowed pause_requested JobStatus.succeeded = true
allowed pause_requested JobStatus.failed = true
allowed JobStatus.paused queued = true
allowed JobStatus.paused needs_confirmation = true
allowed JobStatus.paused JobStatus.cancelled = true
allowed needs_confirmation queued = true
allowed needs_confirmation JobStatus.cancelled = true
allowed cancel_requested JobStatus.cancelled = true
allowed cancel_requested JobStatus.failed = true
allowed _ _ = false

-- A status that the graph has no way out of.
abbrev pub is_terminal : JobStatus → Bool
is_terminal JobStatus.succeeded = true
is_terminal JobStatus.failed = true
is_terminal JobStatus.cancelled = true
is_terminal _ = false

abbrev attempt_code : AttemptStatus → ℕ
attempt_code claimed = 0
attempt_code AttemptStatus.running = 1
attempt_code AttemptStatus.paused = 2
attempt_code AttemptStatus.succeeded = 3
attempt_code AttemptStatus.failed = 4
attempt_code AttemptStatus.cancelled = 5
attempt_code AttemptStatus.expired = 6

abbrev pub same_attempt_status : AttemptStatus → AttemptStatus → Bool
same_attempt_status a b = attempt_code a == attempt_code b

pub same_status_eq : (a b : JobStatus) → same_status a b ≡ true → a ≡ b
same_status_eq a b h = ground arith

pub terminal_stays : (a b : JobStatus) → is_terminal a ≡ true → allowed a b ≡ false
unfolding allowed
terminal_stays a b h = ground arith
