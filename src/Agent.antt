-- ===== src/Agent.antt =====
-- pkg/agent: the agent beside the application, which runs CRIU.
pub mod Storage
pub mod Mounts
pub mod Manager
pub mod PreDump
pub mod FinalDump
pub mod State
pub mod Profiling
pub mod Dumping
pub mod Status
pub mod Deadline
pub mod Runs
mod Samples
mod Examples
