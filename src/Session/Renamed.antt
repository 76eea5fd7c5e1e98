-- ===== src/Session/Renamed.antt =====
-- What a decompilation renames and retypes after a session.
use yagi.Common.{ℕ, ◌≡◌, ap, ◌∙◌, false, List, [], All, Option, none, Bytes}
use yagi.Symbol.Netnode.{NetnodeApi}
use yagi.Symbol.Saved.Tables.{names_in_blank, types_in_blank, build_type-shown}
use yagi.Action.Rename.{rename_vars}
use yagi.Action.Rename.Table.{table_renamings, rename_vars-table}
use yagi.Action.LoadScope.{LocalScope, load_vars}
use yagi.Action.LoadScope.Table.{is_search, load_table, load_vars-table, load_table-quiet}
use yagi.Types.Manager.Monad.{M}
use yagi.Session.{Event, session}
use yagi.Session.Store.{Store, store_after, empty_store, PlainEvent}
use yagi.Session.Represented.{Represents, session-Represents}

module _ (api : NetnodeApi) {T : Type 0} (parse_decl : Bytes → Option T) where
  open api use {Db, valstr, valstr-open_node}

  -- A database without values stands for the empty tables.
  pub Represents-empty_store :
      (db : Db) → ((k : Bytes) → valstr k db ≡ []) → Represents api parse_decl db empty_store
  Represents-empty_store db blank = record {
    names_are = λ func space pc. names_in_blank api db func pc space blank;
    types_are = λ func space pc. types_in_blank api parse_decl db func pc space blank;
  }

  module _ {D FS : Type 0} (find : T → M FS D) (scope : LocalScope D) where
    -- Where every search of a database returns what a table of names and one of types have, after
    -- any session on it whose keys save texts without a bar and 64-bit offsets, the action that
    -- renames the variables of a space, over whatever operations, ends without an exception, and
    -- what it does to the local scope is, operation by operation, to give the symbol at the
    -- offset the table of names has there the name it has there, and to lock it.
    pub rename_vars-session :
        (events : List (Event FS scope.S)) (σ : Store) (db : Db)
        (find_addr : Bytes → ℕ → ℕ → Option ℕ) (unset func : ℕ) (space : Bytes) (pcs : List ℕ)
        → All PlainEvent events
        → Represents api parse_decl db σ
        → let r =
            rename_vars api find_addr unset func space pcs
              (session api parse_decl find scope events db) in
          (r.0 ≡ none)
          × (r.1 ≡ table_renamings find_addr ((store_after events σ).names func space) space pcs)
    rename_vars-session events σ db find_addr unset func space pcs plain h =
        rename_vars-table find_addr api unset ((store_after events σ).names func space) func space
          pcs _
          ((session-Represents api parse_decl find scope events σ db plain h).names_are func space)

    -- Where every search of a database returns what a table of names and one of types have, after
    -- any session on it whose keys save texts without a bar and 64-bit offsets, the action that
    -- brings the saved types of a space in, over whatever operations, is not ended by the
    -- exception of a search, and ends as going through the table of types does: where it has a
    -- type for an operation that IDA parses, and the local scope has no symbol at the offset, the
    -- scope gets a symbol of the type that the type manager finds, locked, up to the first type
    -- for which it has none.
    pub load_vars-session :
        (events : List (Event FS scope.S)) (σ : Store) (db : Db) (unset func : ℕ) (space : Bytes)
        (pcs : List ℕ) (fs : FS) (s : scope.S)
        → All PlainEvent events
        → Represents api parse_decl db σ
        → let r =
            load_vars api parse_decl find scope unset func space pcs
              (session api parse_decl find scope events db)
              fs
              s in
          let l =
            load_table parse_decl find scope
              ((store_after events σ).types func space)
              space
              pcs
              fs
              s in
          (is_search r.0 ≡ false) × (r.0 ≡ l.0) × (r.2 ≡ l.1) × (r.3 ≡ l.2)
    load_vars-session events σ db unset func space pcs fs s plain h =
        let table : ℕ → Option (Bytes × ℕ) = (store_after events σ).types func space in
        let reached = session-Represents api parse_decl find scope events σ db plain h in
        let (stops, factory, local) =
          load_vars-table parse_decl find scope api unset table func space pcs
            (session api parse_decl find scope events db) fs s
            (λ pc. reached.types_are func space pc ∙ build_type-shown api parse_decl (table pc)) in
        (
          ap is_search stops ∙ load_table-quiet parse_decl find scope table space pcs fs s,
          stops,
          factory,
          local,
        )
