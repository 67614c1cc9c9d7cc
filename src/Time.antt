-- ===== src/Time.antt =====
-- Dates and times of master/base.
pub mod Date
pub mod Zone
