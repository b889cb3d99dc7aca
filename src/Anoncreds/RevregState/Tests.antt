-- ===== src/Anoncreds/RevregState/Tests.antt =====
-- Reads after writes at a storage in memory.
use aca_py_did_kanon.Prelude.{◌≡◌, refl, none, [], ◌∷◌, Bytes, ok}
use aca_py_did_kanon.Prelude.Dict.{Dict, get, put}
use aca_py_did_kanon.Prelude.Hex.{codes}
use aca_py_did_kanon.Storage.{Json, parsed, upsert, existing}
use aca_py_did_kanon.Storage.Memory.{by_id}
use aca_py_did_kanon.Anoncreds.RevregState.{
  RevregMeta, CredexBinding, save_revreg_meta, remember_cred_index, remember_credex_cred_id,
  index_id, meta_id, credex_id,
}

abbrev cred : Bytes
cred = codes "ab"

abbrev one_index : Dict Bytes
one_index = (index_id (codes "reg") 3, cred) ∷ []

remembers : remember_cred_index (by_id Bytes) [] (codes "reg") 3 cred ≡ ok one_index
unfolding remember_cred_index upsert existing get put
remembers = refl

abbrev binding : CredexBinding
binding = record { kanon_cred_id = cred; cred_def_id = codes "cd" }

abbrev one_binding : Dict (Json CredexBinding)
one_binding = (credex_id (codes "x"), parsed binding) ∷ []

binds :
    remember_credex_cred_id (by_id (Json CredexBinding)) [] (codes "x") cred (codes "cd")
    ≡ ok one_binding
unfolding remember_credex_cred_id upsert existing get put
binds = refl

abbrev meta : RevregMeta
meta = record {
  rev_reg_id = codes "reg";
  cred_def_id = codes "cd";
  policy_mask = 1;
  max_cred_num = 100;
  rev_reg_def = codes "{}";
  initial_rev_list = none;
}

abbrev one_meta : Dict (Json RevregMeta)
one_meta = (meta_id (codes "reg"), parsed meta) ∷ []

saves : save_revreg_meta (by_id (Json RevregMeta)) [] meta ≡ ok one_meta
unfolding save_revreg_meta upsert existing get put
saves = refl
