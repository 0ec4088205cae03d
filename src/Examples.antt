-- ===== src/Examples.antt =====
-- Tests: every result at a concrete input.
pub mod Worlds
mod Notifying
mod Tasks
mod Switching
mod Placing
mod Sleeping
mod Remote
mod Acting
mod Stopping
mod Promises
mod Sockets
pub mod Sharing
mod Networking
