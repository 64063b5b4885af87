-- ===== src/ShellLocal.antt =====
-- The local shell provisioner: its settings and their execution.
pub mod Config
pub mod Run
mod Tests
