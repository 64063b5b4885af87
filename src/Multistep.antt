-- ===== src/Multistep.antt =====
-- multistep/: the state bag, steps, and the runners that run them.
pub mod StateBag
pub mod BasicStateBag
pub mod Step
pub mod BasicRunner
pub mod DebugRunner
mod Tests
