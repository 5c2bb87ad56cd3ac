-- ===== src/Queue.antt =====
-- The lease-fenced job queue of src/verifierci/execution/jobs.py.
pub mod Database
pub mod RunState
pub mod Claim
pub mod Lease
pub mod Complete
pub mod Reap
pub mod Cancel
pub mod Evolution
pub mod Keeps
pub mod Claims
pub mod Operations
pub mod Ordering
pub mod Reaping
pub mod Expiry
pub mod Verdicts
pub mod History
pub mod Fencing
pub mod Quarantine
pub mod Resubmission
pub mod Conflict
pub mod Grants
pub mod Termination
pub mod Cancellation
mod Examples
