-- ===== src/Timer.antt =====
-- The timers: the ordered sets that hold them, and the scheduler.
pub mod Ordered
pub mod State
pub mod Scheduler
pub mod Events
pub mod Loop
pub mod Thread
mod Tests
