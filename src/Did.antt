-- ===== src/Did.antt =====
-- did_kanon/v1_0/did: the resolver.
pub mod Resolver
