-- ===== src/Schema.antt =====
-- The migrations of the database: src/verifierci/storage/db.py, `migrate`.
pub mod Migrate
pub mod Pending
pub mod Again
mod Examples
