-- ===== src/Artifacts.antt =====
-- The content-addressed artifact store of src/verifierci/storage/artifacts.py.
pub mod Disk
pub mod Put
pub mod Read
pub mod Sweep
pub mod Collect
pub mod Storing
pub mod Retention
pub mod Limits
mod Examples
pub mod Addressing
