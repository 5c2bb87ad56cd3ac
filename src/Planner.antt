-- ===== src/Planner.antt =====
-- The audit planner of src/verifierci/execution/planner.py.
pub mod Manifest
pub mod Expand
pub mod Build
pub mod Coverage
pub mod Asked
pub mod Distinct
pub mod Records
mod Examples
