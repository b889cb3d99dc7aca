-- ===== src/Anoncreds.antt =====
-- did_kanon/v1_0/anoncreds: what the plugin keeps of revocation registries.
pub mod RevregState
pub mod Registry
pub mod Revocation
