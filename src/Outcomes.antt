-- ===== src/Outcomes.antt =====
-- Outcome classification: src/verifierci/execution/outcomes.py.
pub mod Classify
pub mod Precedence
pub mod Decisions
mod Examples
