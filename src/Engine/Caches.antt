-- ===== src/Engine/Caches.antt =====
-- engine/core: the caches of table metadata and of prepared statements.
pub mod Metadata
pub mod Prepared
