-- ===== src/Contracts/Pool/Tests.antt =====
-- A node with code everywhere, and two callers of one network.
use aca_py_did_kanon.Prelude.{◌≡◌, refl, none, some, [], ◌∷◌, replicate, bytes_eq, ok}
use aca_py_did_kanon.Prelude.Dict.{get, put}
use aca_py_did_kanon.Prelude.Hex.{codes}
use aca_py_did_kanon.Prelude.Text.{pos}
use aca_py_did_kanon.Config.{KanonNetwork}
use aca_py_did_kanon.Contracts.AddressBook.{by_key, resolve_sync}
use aca_py_did_kanon.Contracts.Pool.{
  Provider, Client, new_client, KanonRegistries, from_book, in_book, address_picker, reachable,
  verify_chain, new_registries, get_or_build, keep_built,
}
use aca_py_did_kanon.Contracts.Pool.Interleaved.{
  PoolState, Reach, here, next, miss, locked, sync, first, further, one_set_of_clients,
}

abbrev w3 : Provider
w3 = record {
  checksum = λ a. ok a;
  from_key = λ k. ok k;
  registries_of = λ book. ok (replicate 7 book);
  get_code = λ a. ok (1 ∷ 2 ∷ []);
  chain_id = ok 5;
}

abbrev net : KanonNetwork
net = record {
  name = codes "kanon";
  rpc_url = codes "http://node";
  addresses = [];
  chain_id = some (pos 5);
  operator_key = some (codes "k");
  address_book = some (codes "0xb");
  issuer_org_id = none;
  default_policy_mask = 1;
}

abbrev client : Client
client = record { address = codes "0xb"; operator_address = some (codes "k") }

abbrev clients : KanonRegistries
clients = record {
  net = net;
  org = client;
  did = client;
  schema = client;
  cred_def = client;
  merkle = client;
  status = client;
}

builds : new_registries w3 net ≡ ok clients
unfolding new_registries new_client from_book in_book address_picker resolve_sync by_key reachable
    verify_chain get put bytes_eq
builds = refl

-- One caller misses, a call of `for_network` builds, and then the caller has the lock.
abbrev last : PoolState
last = record {
  cache = (codes "kanon", clients) ∷ [];
  waiting = [];
  answers = (codes "kanon", clients) ∷ (codes "kanon", clients) ∷ [];
}

schedule : Reach (record { cache = []; waiting = []; answers = [] }) last
unfolding get_or_build keep_built new_registries new_client from_book in_book address_picker
    resolve_sync by_key reachable verify_chain get put bytes_eq
schedule =
    next (next (next here (miss net refl refl)) (sync w3 net refl)) (locked w3 net [] [] refl refl)

one_set_of_clients_example : clients ≡ clients
one_set_of_clients_example =
    one_set_of_clients [] last (codes "kanon") clients clients schedule (first _)
      (further _ (first _))
