-- ===== src/Engine/Xa.antt =====
-- engine/xa_transaction.rs: an XA transaction branch, driven through two-phase commit. The build is
-- the one without the feature `xa-dtc`, in which SQL Server has no branches.
pub mod Sql
pub mod Branch
pub mod Live
pub mod Client
pub mod Ends
pub mod TwoPhase
pub mod Lifecycle
mod Tests
pub mod Start
pub mod Statements
