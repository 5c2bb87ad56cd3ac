-- ===== src/Models.antt =====
-- The records of src/verifierci/models that the queue, the report parser and the reducer share.
pub mod Attempt
pub mod Job
pub mod Capture
