-- ===== src/Storage.antt =====
-- internal/storage: the storage policy of a managed state.
pub mod Policy
