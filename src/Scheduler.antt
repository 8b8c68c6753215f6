-- ===== src/Scheduler.antt =====
-- Batch production (scheduler/models.py, scheduler/service.py): the items of a batch are dispatched
-- as jobs within the resources that are left, and follow the state of those jobs.
pub mod Batch
pub mod Dispatch
pub mod Status
pub mod Service
pub mod Limits
pub mod Faults
pub mod Outcome
pub mod Stored
pub mod Scenarios
