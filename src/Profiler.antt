-- ===== src/Profiler.antt =====
-- pkg/profiler: the write profiler of the agent, which finds the hot parts of a process's memory.
pub mod Areas
pub mod Heat
pub mod Scan
pub mod Lifecycle
mod Registering
mod Examples
