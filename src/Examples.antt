-- ===== src/Examples.antt =====
-- Tests: runs of the model on concrete inputs, and the theorems applied to them.
pub mod Wire
pub mod Payloads
pub mod Sessions
pub mod Dongles
pub mod Opening
pub mod Configs
pub mod Threads
pub mod Transports
pub mod Defaults
pub mod Devices
pub mod Keepalive
pub mod Live
pub mod Receive
