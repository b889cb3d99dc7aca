-- ===== src/Lib.antt =====
-- A model of the plugin did_kanon (v1_0) for ACA-Py, and theorems on it: the part that decides which
-- credentials count as issued, and the cryptographic and storage code below it.
--
-- An issuer keeps, for each credential definition, the set of active leaves: a keccak leaf and a
-- Poseidon leaf for each credential. Issuing and revoking change the set, compute two Merkle roots and
-- publish them with the difference in one transaction; a checkpoint in the wallet and the events of
-- the contract bring the set back after a restart. Issuer keys and revocation-registry records are
-- kept in the same wallet.
--
-- Files, with the code that each models (paths under did_kanon/v1_0):
-- - Prelude and below: Booleans, lists, exceptions as values (Exceptions), methods that change an
--   object (Exec), dicts in insertion order (Dict), bytes, hex, decimal and big-endian numbers.
-- - Web3, Storage: what the program takes from web3 and from the wallet, as records of operations with
--   their documented laws. Web3.Toy and Storage.Memory are instances for the tests.
-- - Contracts.Convert, Contracts.MerkleState: contracts/merkle_state.py. batch_update,
--   initialize_cred_def_state, get_leaf_events and the views; a sent transaction is an argument.
-- - Contracts.Transaction: contracts/_base.py, _build_fee_fields, _send and _read.
--   Contracts.StatusRegistry: contracts/status_registry.py. Its _send is that of _base.py with its own
--   exception.
--   Contracts.CredDefRegistry, SchemaRegistry, OrgRegistry, DidRegistry and AddressBook: the files of
--   these names, over Transaction and Views (what a revert means to a read). Contracts.Pool:
--   contracts/pool.py, with its check of the chain; Pool.Interleaved has its calls as steps.
-- - Config: config.py. Values has the parsers of single settings, Sources the two builders.
-- - Identifiers: identifiers.py. Did.Resolver: did/resolver.py, with bytes_to_b58 as an argument.
-- - Zk.Poseidon: zk/poseidon.py. Zk.Attributes: zk/attributes.py. Zk.Leaf: the leaf functions of
--   zk/zk_issuer.py. Zk.MerkleKeccak: zk/merkle_keccak.py. Zk.MerklePoseidon: zk/merkle_poseidon.py.
--   Zk.Blake1: zk/_blake1.py.
-- - Zk.Issuer: KanonZkIssuer of zk/zk_issuer.py. State has the active set and its checkpoint, Sync the
--   replay of events, History the logs that it scans, Roots the two roots, Loops the loops over
--   credentials, Methods the methods get_or_init, add_issued, revoke, get_checkpoint and invalidate on
--   the cache, the set of initialised credDefs and the storage. The cache holds the state object
--   itself, so each change of a state is a change of its cache entry.
-- - Zk.IssuerKey: KanonZkIssuerKeyService of zk/zk_issuer_key.py, its calls one after the other.
--   Callers has the calls of several services with one wallet as steps, an await between two of them.
-- - Zk.BabyJubjub: zk/_babyjub.py, its constants as a record, so that the same functions run on a small
--   curve in the tests. Zk.Eddsa: zk/eddsa.py, with base 64.
-- - Zk.Witness: zk/witness.py, over the memory of the circuit's WASM instance. Zk.Prover:
--   zk/groth16_prover.py, with a run of snarkjs as an argument. Zk.Verifier: zk/groth16_verifier.py,
--   with the pairing of py_ecc, which may raise, as an argument.
-- - Zk.ModeB: zk/mode_b_verify.py; Prepare and Credential: zk/mode_b.py and cred_id_hash.py.
-- - Anoncreds.RevregState: anoncreds/revreg_state.py. Anoncreds.Registry: the mask, the schema and the
--   cred-def methods of anoncreds/registry.py. Anoncreds.Revocation: its revocation methods, over the
--   records of RevregState, the status registry and the Mode B issuer, which update_revocation_list
--   makes anew, so that its cache is empty. Whether for_network gives the clients or raises is an
--   argument of these methods.
--
-- Bytes and texts are lists of numbers; a number of the code is a natural number with its reduction
-- written out; where the code reads a number from a text, one with a sign, a prefix, white space or
-- underscores is left out (int16, from_dec). An exception is its class without the message. What a
-- method wrote before it raised stays written.
--
-- Loops on fuel: layers_above gets the number of leaves (each round shortens a layer), append_zeros the
-- sixteen places, absorb the length of the data, zero_pad one block, mul_loop the scalar, which a round
-- halves, inverse_loop the modulus, above the number of rounds since remainders fall, and limbs the
-- number itself; the theorems on them say what is left when they stop.
--
-- Not modelled: the transaction itself, JSON texts (a record's value is the object, or its text with
-- the function that reads it as an argument), tags of records, log output; the issuance listener and
-- the revocation setup of anoncreds/, did/registrar.py and routes.py, which are steps on the events,
-- the wallet and the requests of ACA-Py around the components here. Arguments stand for what is not in
-- the repository: the tables of poseidon_constants.json, the pairing of py_ecc, the circuit, a run of
-- snarkjs, eth_abi, the environment and the file system, the provider and the contracts.
pub mod Prelude
pub mod Web3
pub mod Storage
pub mod Config
pub mod Contracts
pub mod Did
pub mod Identifiers
pub mod Anoncreds
pub mod Zk
