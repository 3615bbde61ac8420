-- ===== src/Threads.antt =====
-- tools/threadpool, and the latch of tools/base that it uses.
pub mod Latch
pub mod Pool
mod Tests
