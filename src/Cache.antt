-- ===== src/Cache.antt =====
-- The caches of rendered artifacts (cache/): the index and its collector, the cache in the database
-- and its collector, and the plans of what a change makes stale.
pub mod Index
mod Entries
pub mod Gc
pub mod Contracts
pub mod Persistent
mod Put
mod Invalidate
pub mod LeaseLife
mod LeaseSteps
mod LookupNet
mod LookupEnds
mod SweepSafety
pub mod Events
mod Scope
pub mod Graph
mod GraphScope
pub mod Lookup
pub mod PersistentGc
mod GcPlan
mod GcPending
mod GcFrees
mod GcReturns
mod Reopen
mod Scenarios
mod TableScenarios
mod GraphScenarios
