-- ===== src/Communicator.antt =====
-- The communicators: their settings, and the tunnels and attempts of a connection over SSH.
pub mod Tunnel
pub mod Keys
pub mod Config
pub mod Auth
pub mod Connect
pub mod Prepared
pub mod WaitForWinRm
pub mod Steps
pub mod StepConnect
mod Tests
