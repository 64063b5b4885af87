-- ===== src/CommonSteps.antt =====
-- multistep/commonsteps/: the runner that builders ask for.
pub mod Ui
pub mod OnError
pub mod NewRunner
pub mod Download
pub mod Provision
pub mod OutputDir
pub mod Settings
mod Tests
