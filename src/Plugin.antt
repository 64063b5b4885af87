-- ===== src/Plugin.antt =====
-- plugin/: what a plugin binary offers.
pub mod Set
