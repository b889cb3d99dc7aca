-- ===== src/Anoncreds/Revocation/Lists.antt =====
-- anoncreds/registry.py: what is stored of a revocation list is read back.
use aca_py_did_kanon.Prelude.{◌≡◌, refl, Bool, true, false, some, [], ◌∷◌, Bytes, Result, ok}
use aca_py_did_kanon.Storage.{Storage, Json}
use aca_py_did_kanon.Anoncreds.RevregState.{RevregMeta}
use aca_py_did_kanon.Anoncreds.Revocation.{RevList, Agent, load_meta, get_revocation_list}

-- A text that counts as one.
abbrev pub not_empty : Bytes → Bool
not_empty [] = false
not_empty (c ∷ cs) = true

not_true : false ≡ true → ⊥
not_true h = cc

module _ {S C : Type 0} (metas : Storage (Json RevregMeta) S)
    (deserialize : Bytes → Result RevList) where
  pub get_revocation_list-listed :
      (rev_reg_id json : Bytes) (rev_list : RevList) (agent : Agent S C) (meta : RevregMeta)
      → not_empty json ≡ true
      → deserialize json ≡ ok rev_list
      → load_meta metas rev_reg_id agent ≡ some (record meta { initial_rev_list = some json })
      → get_revocation_list metas deserialize rev_reg_id agent
        ≡ (ok (rev_list, meta.policy_mask), agent)
  unfolding get_revocation_list
  get_revocation_list-listed rev_reg_id [] rev_list agent meta filled parses stored =
      absurd (not_true filled)
  get_revocation_list-listed rev_reg_id (c ∷ cs) rev_list agent meta filled parses stored =
      rw stored (rw parses refl)
