-- ===== src/Engine.antt =====
-- engine/: the parts of the query engine that this library models.
pub mod Identifier
pub mod Capabilities
pub mod Transaction
pub mod SqlserverJson
pub mod Xid
pub mod Xa
pub mod Lru
pub mod Caches
pub mod Spill
