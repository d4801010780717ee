-- ===== src/Tests.antt =====
-- The theorems of the tunnel at concrete inputs, and runs of its functions.
pub mod Reorder
pub mod Registry
pub mod Datagrams
pub mod Sequence
pub mod Challenge
pub mod Options
pub mod Delivery
pub mod Acks
pub mod Configs
pub mod Sessions
pub mod Handshakes
pub mod Forwards
pub mod Relays
