-- ===== src/Config.antt =====
-- src/config: the configuration.
pub mod Keys
pub mod ConfigRepository
