-- ===== src/Node.antt =====
-- crates/chesscoin-node/src/runtime.rs: a node, its peers, its storage and its messages.
pub mod Address
pub mod Config
pub mod State
pub mod Peers
pub mod Locator
pub mod Headers
pub mod Stream
pub mod Serve
pub mod Storage
pub mod Chains
pub mod Load
pub mod Dispatch
pub mod Exchange
pub mod Steps
pub mod Loop
pub mod Start
mod Tests
