-- ===== src/Contracts.antt =====
-- The package contracts: the clients of the on-chain registries.
pub mod Convert
pub mod MerkleState
pub mod Transaction
pub mod StatusRegistry
pub mod Views
pub mod CredDefRegistry
pub mod SchemaRegistry
pub mod OrgRegistry
pub mod DidRegistry
pub mod AddressBook
pub mod Pool
