-- ===== src/Action/Rename/Nodes.antt =====
-- The action that renames the variables opens nodes, and does nothing else to the database.
use yagi.Common.{ℕ, List, [], ◌∷◌, Option, Bytes}
use yagi.Base.Stoull.{Stoull}
use yagi.Symbol.Netnode.{NetnodeApi}
use yagi.Symbol.Saved.{Outcome, throws, returns, find_name}
use yagi.Action.Rename.{Renaming, continue_with, rename_vars}

module _ (api : NetnodeApi) (find_addr : Bytes → ℕ → ℕ → Option ℕ) (unset : ℕ) (P : api.Db → Type 0)
    (opened : (n : Bytes) (db : api.Db) → P db → P (api.open_node n db)) where
  open api use {Db}

  continue_with_keeps :
      (space : Bytes) (pc : ℕ) (db : Db) (o : Outcome Bytes)
      (rest : Option Stoull × List Renaming × Db)
      → P db
      → P rest.2
      → P (continue_with api find_addr unset space pc db o rest).2
  unfolding continue_with
  continue_with_keeps space pc db (throws e) rest h h' = h
  continue_with_keeps space pc db (returns name offset) rest h h' = h'

  pub rename_vars_keeps :
      (func : ℕ) (space : Bytes) (pcs : List ℕ) (db : Db)
      → P db
      → P (rename_vars api find_addr unset func space pcs db).2
  unfolding rename_vars find_name
  rename_vars_keeps func space [] db h = h
  rename_vars_keeps func space (pc ∷ pcs) db h =
      let h' = opened _ db h in
      continue_with_keeps space pc _ _ _ h' (rename_vars_keeps func space pcs _ h')
