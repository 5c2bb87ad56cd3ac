-- ===== src/Report.antt =====
-- The pytest report parser of src/verifierci/evaluators/pytest_report.py.
pub mod Scan
pub mod Judge
pub mod Parser
pub mod Reading
pub mod Acceptance
