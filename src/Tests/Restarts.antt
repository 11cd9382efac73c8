-- ===== src/Tests/Restarts.antt =====
-- A store that is rebuilt from one survivor.
use buff.Common.{◌≡◌, refl, ◌↔◌, false, Bytes, codes, none, some, [], ◌∷◌, arith}
use buff.Store.GenId.{GenId, id_string}
use buff.Store.State.{Store, new_store}
use buff.Store.Manage.{stat}
use buff.Store.Invariant.{Inv}
use buff.Store.History.{here, next, stats}
use buff.Store.Recovery.{parse_gen_id, parse_gen_id_iff}
use buff.Store.Restore.{Recovered, restore, Reach-restored}
use buff.Tests.Stores.{config, name, plain}

abbrev pub id : GenId
id = record { prefix = 5; tail = 9 }

abbrev pub directory : Bytes
directory = codes "00000000000000050000000000000009"

parse_gen_id_iff_example : (parse_gen_id directory ≡ some id) ↔ (directory ≡ id_string id)
parse_gen_id_iff_example = parse_gen_id_iff directory id (omega arith) (omega arith)

abbrev pub survivor : Recovered
survivor = record {
  id = id;
  name = name;
  metadata = plain;
  created = 5;
  finalized_at = some 7;
  expires = none;
  consume = false;
  size = 2;
  stored = b'h' ∷ b'i' ∷ [];
}

abbrev rebuilt : Store
rebuilt = restore (new_store config) (survivor ∷ [])

Reach-restored_example : Inv (stat name 9 rebuilt).0
Reach-restored_example = Reach-restored config (survivor ∷ []) (next here (stats name 9 refl))
