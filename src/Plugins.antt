-- ===== src/Plugins.antt =====
-- plugins/: the SQL that the vendor plugins build.
pub mod Upsert
pub mod Vendors
pub mod Parts
pub mod Inputs
pub mod Placeholders
pub mod Contract
mod Tests
