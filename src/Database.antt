-- ===== src/Database.antt =====
-- src/database: the compression of a day's samples for the archive.
pub mod Maps
pub mod Types
pub mod Delta
pub mod Cbor
pub mod Downsample
pub mod Environment
pub mod Store
pub mod Archive
pub mod Samples
