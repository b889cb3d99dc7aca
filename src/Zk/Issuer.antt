-- ===== src/Zk/Issuer.antt =====
-- zk/zk_issuer.py, `KanonZkIssuer`: the set of active leaves of each credDef, its checkpoint and its
-- publication. Each method is an action on the issuer object and the wallet's storage.
pub mod State
pub mod Roots
pub mod Sync
pub mod Loops
pub mod Methods
pub mod Canonical
pub mod Replay
pub mod History
pub mod Synced
pub mod Again
pub mod Retry
pub mod Recovery
pub mod Published
pub mod Invariant
pub mod Membership
pub mod Tests
