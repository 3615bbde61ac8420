-- ===== src/Coroutine.antt =====
-- tools/coroutine: coroutines and their scheduler.
pub mod Scheduler
pub mod Thread
mod Tests
