-- ===== src/Domain.antt =====
-- crates/chesscoin-core/src/domain.rs: protocol data and the deterministic transition rule.
pub mod Digest
pub mod Model
pub mod Mix
pub mod Step
pub mod Trace
mod Tests
