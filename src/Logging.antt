-- ===== src/Logging.antt =====
-- The log of the library in master/base.
pub mod Stream
pub mod Async
pub mod File
