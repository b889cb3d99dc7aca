-- ===== src/Contracts/Pool.antt =====
-- contracts/pool.py: the clients of one network, and the pool that keeps one set of them for each. What
-- web3 answers while clients are built is a record.
pub mod Verified
pub mod Interleaved
mod Tests
use aca_py_did_kanon.Prelude.{
  ℕ, zero, suc, Bool, true, false, not, ◌&&◌, ◌||◌, Option, none, some, List, [], ◌∷◌, ◌==◌,
  if◌then◌else◌, Bytes, bytes_eq, Error, Result, ok, err, registries_error, key_error, ◌>>=◌, ◌>>◌,
  raise_if,
}
use aca_py_did_kanon.Prelude.Exec.{Exec}
use aca_py_did_kanon.Prelude.Dict.{Dict, get, put}
use aca_py_did_kanon.Prelude.Hex.{codes}
use aca_py_did_kanon.Prelude.Text.{ℤ, pos, negsuc, is_empty}
use aca_py_did_kanon.Config.{KanonNetwork, DidKanonConfig, network, address}
use aca_py_did_kanon.Contracts.AddressBook.{resolve_sync}

pub record Provider : Type 0 where
  -- `Web3.to_checksum_address`, and the address of `from_key(operator_key)`
  pub checksum : Bytes → Result Bytes
  pub from_key : Bytes → Result Bytes
  -- The view `registries` of the address book at an address.
  pub registries_of : Bytes → Result (List Bytes)
  pub get_code : Bytes → Result Bytes
  pub chain_id : Result ℕ

-- What a client keeps: its contract's address and the address of its operator.
pub record Client : Type 0 where
  pub address : Bytes
  pub operator_address : Option Bytes

-- The constructor of each client.
unfoldable pub new_client : Provider → Bytes → Option Bytes → Result Client
new_client w3 addr none = do
  a ← w3.checksum addr
  ok (record { address = a; operator_address = none })
new_client w3 addr (some []) = do
  a ← w3.checksum addr
  ok (record { address = a; operator_address = none })
new_client w3 addr (some (c ∷ cs)) = do
  a ← w3.checksum addr
  operator ← w3.from_key (c ∷ cs)
  ok (record { address = a; operator_address = some operator })

pub record KanonRegistries : Type 0 where
  pub net : KanonNetwork
  pub org : Client
  pub did : Client
  pub schema : Client
  pub cred_def : Client
  pub merkle : Client
  pub status : Client

-- `_addr`, as the constructor picks it: from the book only where no address is given.
unfoldable pub from_book : KanonNetwork → Option Bytes
from_book net = elim net.address_book [
  | none ↦ none
  | some book ↦
      if is_empty book then none else elim net.addresses [ [] ↦ some book | e ∷ es ↦ none ]
]

unfoldable pub in_book : Dict Bytes → Bytes → Result Bytes
in_book resolved key = elim (get key resolved) [ none ↦ err key_error | some a ↦ ok a ]

unfoldable pub address_picker : Provider → KanonNetwork → Result (Bytes → Result Bytes)
unfolding from_book
address_picker w3 net = elim (from_book net) [
  | none ↦ ok (address net)
  | some book ↦ do
    resolved ← resolve_sync w3.checksum (w3.registries_of book)
    ok (in_book resolved)
]

-- `not code or code in (b"", b"\x00")`
abbrev pub no_code : Bytes → Bool
no_code [] = true
no_code (b ∷ []) = b == 0
no_code (b ∷ c ∷ bs) = false

abbrev pub is_chain : ℤ → ℕ → Bool
is_chain (pos n) on_chain = on_chain == n
is_chain (negsuc n) on_chain = false

-- Any exception of a read becomes the pool's own.
unfoldable pub reachable {ℓ} : {A : Type ℓ} → Result A → Result A
reachable (ok a) = ok a
reachable (err e) = err registries_error

-- `_verify_chain`
unfoldable pub verify_chain : Provider → KanonNetwork → Client → Result (Unit {0})
unfolding reachable
verify_chain w3 net did = do
  code ← reachable (w3.get_code did.address)
  raise_if (no_code code) registries_error
  elim net.chain_id [
    | none ↦ ok tt
    | some expected ↦ do
      on_chain ← reachable w3.chain_id
      raise_if (not (is_chain expected on_chain)) registries_error
  ]

-- `KanonRegistries(net)`
unfoldable pub new_registries : Provider → KanonNetwork → Result KanonRegistries
new_registries w3 net = do
  addr ← address_picker w3 net
  org_address ← addr (codes "org_registry")
  org ← new_client w3 org_address net.operator_key
  did_address ← addr (codes "did_registry")
  did ← new_client w3 did_address net.operator_key
  schema_address ← addr (codes "schema_registry")
  schema ← new_client w3 schema_address net.operator_key
  cred_def_address ← addr (codes "cred_def_registry")
  cred_def ← new_client w3 cred_def_address net.operator_key
  merkle_address ← addr (codes "merkle_state_registry")
  merkle ← new_client w3 merkle_address net.operator_key
  status_address ← addr (codes "status_registry")
  status ← new_client w3 status_address net.operator_key
  verify_chain w3 net did
  ok (record {
    net = net;
    org = org;
    did = did;
    schema = schema;
    cred_def = cred_def;
    merkle = merkle;
    status = status;
  })

-- The pool's cache by network name.
abbrev pub Cache : Type 0
Cache = Dict KanonRegistries

-- A set of clients that was built goes into the cache, and the cached set is returned.
unfoldable pub keep_built : Bytes → Result KanonRegistries → Cache → Result KanonRegistries × Cache
keep_built name (ok reg) cache = (ok reg, put name reg cache)
keep_built name (err e) cache = (err e, cache)

-- The part of both methods that looks again and builds: under the lock in `for_network_async`.
unfoldable pub get_or_build : Provider → KanonNetwork → Exec Cache KanonRegistries
unfolding keep_built
get_or_build w3 net cache = elim (get net.name cache) [
  | some reg ↦ (ok reg, cache)
  | none ↦ keep_built net.name (new_registries w3 net) cache
]

-- `for_network`: with no await between the look and `setdefault`, the cache has no entry to keep.
unfoldable pub for_network : Provider → DidKanonConfig → Option Bytes → Exec Cache KanonRegistries
unfolding get_or_build
for_network w3 config name cache = elim (network config name) [
  | err e ↦ (err e, cache)
  | ok net ↦ get_or_build w3 net cache
]

-- `for_network_async` with nothing between its two looks.
unfoldable pub for_network_async :
    Provider → DidKanonConfig → Option Bytes → Exec Cache KanonRegistries
unfolding get_or_build
for_network_async w3 config name cache = elim (network config name) [
  | err e ↦ (err e, cache)
  | ok net ↦ elim (get net.name cache) [
    | some reg ↦ (ok reg, cache)
    | none ↦ get_or_build w3 net cache
  ]
]

unfoldable pub for_did : Provider → DidKanonConfig → Bytes → Exec Cache KanonRegistries
unfolding for_network
for_did w3 config did = for_network w3 config (some config.default_network)
