-- ===== src/Tests.antt =====
-- A small cluster and the runs of the model on it.
pub mod Fixtures
pub mod Rendering
pub mod Guarding
pub mod Reconciling
pub mod Checking
pub mod Memory
pub mod Watching
pub mod Keeping
pub mod Settling
pub mod Copying
pub mod Admitting
pub mod Starting
