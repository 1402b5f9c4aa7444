-- ===== src/Domain.antt =====
-- The domain types: src/domain and include/gr4cp/domain.
pub mod Session
pub mod Stream
