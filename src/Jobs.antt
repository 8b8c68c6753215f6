-- ===== src/Jobs.antt =====
-- The durable job queue, apps/api/src/workbench/jobs: its tables and the repository over them,
-- the resource leases, the executor registry, the runner and the worker loop.
pub mod Status
pub mod Record
pub mod Store
pub mod Access
pub mod Control
pub mod Enqueue
pub mod Claim
pub mod Progress
pub mod Checkpoints
pub mod Publications
pub mod Recovery
pub mod Lifecycle
pub mod Safety
pub mod ControlSafety
pub mod ProgressSafety
pub mod TableSafety
pub mod RecoverySafety
pub mod RecoveryDone
pub mod EnqueueSafety
pub mod Calls
pub mod Histories
pub mod Outcomes
pub mod Requests
pub mod Races
pub mod ClaimOrder
pub mod Claims
pub mod Dedup
pub mod PublicationLife
pub mod CheckpointOrder
pub mod Leases
pub mod LeaseLife
pub mod LeaseTime
pub mod LeaseScenarios
pub mod Runner
pub mod Rows
pub mod RunnerEnds
pub mod Fixtures
pub mod Scenarios
pub mod WorkScenarios
