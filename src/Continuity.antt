-- ===== src/Continuity.antt =====
-- The continuity plan of a project (continuity/): transitions between pages, overlays and chapters,
-- changed by commands at an expected revision.
pub mod Plan
pub mod Commands
pub mod State
pub mod Service
mod Applied
mod Applies
mod Turns
mod Restart
mod Scenarios
