-- ===== src/Log/Commit.antt =====
-- `commit`: what each phase leaves on the drive.
pub mod Logging
pub mod Atomic
pub mod Crash
pub mod Durable
pub mod Phases
