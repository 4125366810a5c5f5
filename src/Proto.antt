-- ===== src/Proto.antt =====
-- internal/proto: the protocol's messages.
pub mod Timeouts
