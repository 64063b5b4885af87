-- ===== src/Rpc.antt =====
-- The calls between packer and its plugins.
pub mod MuxBroker
mod Tests
