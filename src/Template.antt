-- ===== src/Template.antt =====
-- The package template: the legacy JSON template and its parser.
pub mod Types
pub mod OnlyExcept
pub mod Validate
pub mod Parse
pub mod Assemble
pub mod Duplicates
pub mod Highlight
mod Tests
