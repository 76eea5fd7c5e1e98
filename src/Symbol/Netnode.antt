-- ===== src/Symbol/Netnode.antt =====
-- The netnodes of the IDA database, which are code of the IDA SDK: the operations that
-- yagi/src/idasymbol.cc calls, with what their documentation says of the stored values.
use yagi.Common.{◌≡◌, Bool, true, false, [], ◌∷◌, Bytes, bytes_eq, if◌then◌else◌, not}

abbrev pub is_empty : Bytes → Bool
is_empty [] = true
is_empty (c ∷ s) = false

pub record NetnodeApi : Type 1 where
  pub Db : Type 0
  -- `netnode n(name, 0, true)`: the node is created if there is none.
  pub open_node : Bytes → Db → Db
  -- `valstr`: the value of a node, empty if it has none.
  pub valstr : Bytes → Db → Bytes
  pub set : Bytes → Bytes → Db → Db
  -- `delvalue`: whether there was a value to delete.
  pub delvalue : Bytes → Db → Bool × Db
  pub valstr-open_node : (k j : Bytes) (db : Db) → valstr k (open_node j db) ≡ valstr k db
  pub valstr-set :
      (k j v : Bytes) (db : Db) → valstr k (set j v db) ≡ (if bytes_eq j k then v else valstr k db)
  pub valstr-delvalue :
      (k j : Bytes) (db : Db)
      → valstr k (delvalue j db).1 ≡ (if bytes_eq j k then [] else valstr k db)
  pub delvalue-done : (j : Bytes) (db : Db) → (delvalue j db).0 ≡ not (is_empty (valstr j db))
