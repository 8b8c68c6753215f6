-- ===== src/Audio.antt =====
-- The audio timeline of a project (audio/alignment.py, domain/audio.py): a recording is cut into one
-- segment for each page.
pub mod Timeline
pub mod Tiling
pub mod Edits
pub mod Cuts
pub mod Align
pub mod Routes
pub mod Reach
pub mod Pages
pub mod Scenarios
