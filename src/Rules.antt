-- ===== src/Rules.antt =====
-- src/rules: the symbols that expressions read, and the engine that keeps them up to date.
pub mod SymbolRepository
pub mod RuleEngine
pub mod StrategyFactory
