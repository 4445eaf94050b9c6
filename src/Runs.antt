-- ===== src/Runs.antt =====
-- Concrete runs, and the theorems at concrete inputs.
pub mod Web
mod Daemon
pub mod Power
pub mod Phases
pub mod Charging
pub mod Rules
pub mod Config
pub mod Coap
pub mod Storage
pub mod History
pub mod Database
pub mod Archive
pub mod Requests
pub mod System
pub mod Handlers
