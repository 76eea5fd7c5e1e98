-- ===== src/Action/LoadScope/Nodes.antt =====
-- The action that brings the saved types in opens nodes, and does nothing else to the database.
use yagi.Common.{ℕ, List, [], ◌∷◌, Option, none, some, Bytes}
use yagi.Symbol.Netnode.{NetnodeApi}
use yagi.Symbol.Saved.Tables.{find_type_keeps}
use yagi.Types.Manager.Monad.{M}
use yagi.Action.LoadScope.{LocalScope, Stop, go_on, load_vars}

module _ (api : NetnodeApi) {T D FS : Type 0} (parse_decl : Bytes → Option T) (find : T → M FS D)
    (scope : LocalScope D) (unset : ℕ) (P : api.Db → Type 0)
    (opened : (n : Bytes) (db : api.Db) → P db → P (api.open_node n db)) where
  open api use {Db}
  open scope use {S}

  go_on_keeps :
      (rest : Db → FS → S → Option Stop × Db × FS × S) (db : Db) (r : Option Stop × FS × S)
      → P db
      → ((fs : FS) (s : S) → P (rest db fs s).1)
      → P (go_on api parse_decl find scope unset rest db r).1
  go_on_keeps rest db (none, fs, s) h goes_on = goes_on fs s
  go_on_keeps rest db (some stop, fs, s) h goes_on = h

  pub load_vars_keeps :
      (func : ℕ) (space : Bytes) (pcs : List ℕ) (db : Db) (fs : FS) (s : S)
      → P db
      → P (load_vars api parse_decl find scope unset func space pcs db fs s).1
  unfolding load_vars
  load_vars_keeps func space [] db fs s h = h
  load_vars_keeps func space (pc ∷ pcs) db fs s h =
      let h' = find_type_keeps api parse_decl func pc space P opened db h in
      go_on_keeps (load_vars api parse_decl find scope unset func space pcs) _ _ h'
        (λ fs' s'. load_vars_keeps func space pcs _ fs' s' h')
