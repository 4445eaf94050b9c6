-- ===== src/Stats.antt =====
-- src/stats: the statistics.
pub mod StatsDaily
