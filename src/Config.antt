-- ===== src/Config.antt =====
-- Configuration files.
pub mod File
mod Tests
