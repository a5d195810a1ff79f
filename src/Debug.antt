-- ===== src/Debug.antt =====
-- rp1_chainboot_poc/src/rp1_debug_stub.rs: the GDB server for RP1 over the debug mailbox, its packets,
-- and the snapshots that the firmware answers with. The mailbox constants of the crate rp1-abi are the
-- record `DebugAbi`.
pub mod Commands
pub mod Handlers
pub mod Packets
pub mod Server
pub mod Smoke
pub mod Snapshot
mod Tests
