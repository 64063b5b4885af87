-- ===== src/Bootcommand.antt =====
-- bootcommand/: boot commands typed into a virtual machine, through three keyboard drivers.
pub mod Driver
pub mod PcXt
pub mod Vnc
pub mod Usb
pub mod Sequence
pub mod Peg
pub mod Grammar
pub mod Config
pub mod Specials
mod Tests
