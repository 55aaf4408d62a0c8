-- ===== src/Wire.antt =====
-- crates/chesscoin-node/src/wire.rs: the lines that nodes send each other.
pub mod Number
pub mod Text
pub mod Message
pub mod Encode
pub mod Decode
pub mod Receive
mod Tests
