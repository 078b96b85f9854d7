-- ===== src/Timer.antt =====
-- The client's scheduling of relative timestamps (client/src/time).
pub mod Queue
pub mod RelativeTime
pub mod Scheduler
