-- ===== src/Strategies.antt =====
-- src/strategies: the strategies that steer consumers, their repository and the power manager.
pub mod Description
pub mod Strategy
pub mod StrategyRepository
pub mod PowerManager
pub mod MultiPhase
pub mod RuleActuation
pub mod Wallbox
