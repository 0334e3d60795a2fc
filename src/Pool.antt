-- ===== src/Pool.antt =====
-- The worker pool of pool.go and job.go, and the futures of future.go.
pub mod Job
pub mod Process
pub mod Future
mod Tests
