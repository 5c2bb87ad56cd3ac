-- ===== src/Protocol.antt =====
-- The decoding of records: src/verifierci/models/protocol.py, `decode_record` and what it calls.
pub mod Annotation
pub mod Convert
pub mod Typing
pub mod Soundness
pub mod Kinds
pub mod Decode
pub mod Records
mod Examples
