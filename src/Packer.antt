-- ===== src/Packer.antt =====
-- The package packer: hooks, and errors that are collected.
pub mod Hook
pub mod MultiError
mod Tests
