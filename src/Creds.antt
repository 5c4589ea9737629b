-- ===== src/Creds.antt =====
-- Credentials and sessions: kernel/src/syscall/process/creds.rs. The calls stand in the children
-- by what they change, and are named as in the source.
pub mod Ids
pub mod Session
pub mod Groups
pub mod Caps
pub mod Calls
pub mod Privilege
pub mod Sets
pub mod Frames
mod Tests
