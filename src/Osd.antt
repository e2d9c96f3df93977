-- ===== src/Osd.antt =====
-- OSD disks: the planning of WAL and DB partitions, and the removal of an OSD.
pub mod Plan
pub mod Removal
pub mod Available
