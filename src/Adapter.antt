-- ===== src/Adapter.antt =====
-- The SSH server that a local ansible talks to.
pub mod Connection
pub mod Scp
mod Tests
