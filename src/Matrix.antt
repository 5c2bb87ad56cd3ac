-- ===== src/Matrix.antt =====
-- The acceptance matrix of src/verifierci/execution/matrix.py.
pub mod Cell
pub mod Reduce
pub mod Build
pub mod Identities
pub mod Accounting
pub mod Assembly
pub mod Evidence
pub mod Completeness
pub mod Unanimity
mod Examples
mod Building
