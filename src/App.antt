-- ===== src/App.antt =====
-- frontend/src/App.tsx.
pub mod State
pub mod Patches
pub mod Patch
pub mod Upload
pub mod Controls
pub mod Step
pub mod Chunks
pub mod WellFormed
pub mod Lookup
pub mod Jobs
pub mod Transfer
pub mod Progress
pub mod Races
pub mod Overrides
pub mod Deletion
pub mod Invariant
