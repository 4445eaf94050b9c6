-- ===== src/Common.antt =====
-- src/common: the helpers that the other parts share.
pub mod Date
pub mod Scheduler
