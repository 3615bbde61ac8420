-- ===== src/Base.antt =====
-- tools/base: what the other parts share.
pub mod Timestamp
pub mod Trace
pub mod Singleton
pub mod CurrentThread
pub mod ProcessInfo
mod Tests
