-- ===== src/Log.antt =====
-- tools/log: the line buffer, the formatter and the logger.
pub mod Buffer
pub mod Number
pub mod Format
pub mod Logger
pub mod File
mod Tests
