-- ===== src/Worker.antt =====
-- internal/worker: the poller that turns rows into jobs, and the workers that carry jobs out.
pub mod Pool
pub mod Lifecycle
pub mod Attempts
pub mod Poller
