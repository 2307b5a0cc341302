-- ===== src/Linux.antt =====
-- aethereal/linux: the block devices, the check of the destination and the choice of a source, the
-- read-only mount, and the media manager that ties them together.
pub mod Devices
pub mod Texts
pub mod Parsing
pub mod Validation
pub mod MountInfo
pub mod Mounts
pub mod Media
