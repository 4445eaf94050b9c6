-- ===== src/Things.antt =====
-- src/things: the things.
pub mod ThingValue
pub mod ThingInfo
pub mod ThingDiscovery
pub mod Shelly
pub mod ThingsManager
