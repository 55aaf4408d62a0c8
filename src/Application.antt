-- ===== src/Application.antt =====
-- crates/chesscoin-core/src/application.rs: the protocol on top of the domain.
pub mod Simulator
pub mod Config
pub mod Validation
pub mod Chain
pub mod ForkChoice
mod Tests
