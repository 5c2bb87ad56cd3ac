-- ===== src/Worker.antt =====
-- The worker of src/verifierci/execution/worker.py, which runs one job from its claim to its end.
pub mod Command
pub mod Resolve
pub mod State
pub mod Running
pub mod Evaluate
pub mod Turn
pub mod Evidence
pub mod Collecting
pub mod Submission
pub mod Finishing
pub mod Beating
pub mod Preparing
pub mod Acceptance
pub mod Moves
pub mod Refinement
pub mod Looping
mod Examples
