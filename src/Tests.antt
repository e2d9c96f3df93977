-- ===== src/Tests.antt =====
-- Runs of the definitions on concrete inputs, and instances of the theorems.
pub mod Cluster
pub mod Handlers
pub mod Language
pub mod Disks
pub mod Bootstrap
pub mod Members
pub mod Replicas
pub mod Reports
pub mod Removals
