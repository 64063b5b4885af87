-- ===== src/Chroot.antt =====
-- chroot/: the mounts of a builder that works inside a chroot.
pub mod MountExtra
