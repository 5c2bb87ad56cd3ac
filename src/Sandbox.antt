-- ===== src/Sandbox.antt =====
-- The sandbox of src/verifierci/execution/sandbox.py.
pub mod Lines
pub mod Patch
pub mod Names
pub mod Confinement
pub mod Execute
pub mod Prepare
pub mod Capture
pub mod Faithful
mod Examples
