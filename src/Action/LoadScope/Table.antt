-- ===== src/Action/LoadScope/Table.antt =====
-- The action that brings the saved types in, where each search returns what a table has.
use yagi.Common.{
  ℕ, ◌≡◌, refl, ◌∙◌, Bool, true, false, List, [], ◌∷◌, ◌++◌, Option, none, some, Bytes, codes,
}
use yagi.Symbol.Netnode.{NetnodeApi}
use yagi.Symbol.Saved
use yagi.Symbol.Saved.{Outcome, find_type}
use yagi.Symbol.Saved.Tables.{types_in, types_in-open_node, read_type, find_type_keeps}
use yagi.Types.Manager.Monad.{Result, ok, M}
use yagi.Action.Rename.{searched, offset_or}
use yagi.Action.LoadScope.{
  LocalScope, Stop, search, no_type, usepoint_of, add_typed, load_found, load_at, go_on, load_vars,
}

abbrev pub is_search : Option Stop → Bool
is_search none = false
is_search (some (search e)) = true
is_search (some no_type) = false

module _ {T D FS : Type 0} (parse_decl : Bytes → Option T) (find : T → M FS D)
    (scope : LocalScope D) where
  open scope use {S, Symbol}

  -- A type is added to the local scope and locked, or the type manager has none.
  abbrev pub typed_scope : Bytes → ℕ → Option ℕ → Result D × FS → S → Option Stop × FS × S
  typed_scope space offset usepoint (ok d, fs) s =
      let (sym, s') = scope.add_symbol d space offset usepoint s in
      (none, fs, scope.lock_type sym s')
  typed_scope space offset usepoint (Result.no_model, fs) s = (some no_type, fs, s)
  typed_scope space offset usepoint (Result.out_of_fuel, fs) s = (some no_type, fs, s)

  -- Only where the local scope has no symbol.
  abbrev pub load_missing : Bytes → ℕ → Option ℕ → T → Option Symbol → FS → S → Option Stop × FS × S
  load_missing space offset usepoint t none fs s = typed_scope space offset usepoint (find t fs) s
  load_missing space offset usepoint t (some symbol) fs s = (none, fs, s)

  abbrev pub load_parsed : Bytes → ℕ → Option T → ℕ → FS → S → Option Stop × FS × S
  load_parsed space pc none offset fs s = (none, fs, s)
  load_parsed space pc (some t) offset fs s =
      let usepoint = usepoint_of (searched space) pc in
      load_missing (searched space) offset usepoint t
        (scope.find_addr (searched space) offset usepoint s) fs s

  abbrev pub load_entry : Bytes → ℕ → Option (Bytes × ℕ) → FS → S → Option Stop × FS × S
  load_entry space pc none fs s = (none, fs, s)
  load_entry space pc (some (type_name, offset)) fs s =
      load_parsed space pc (parse_decl (type_name ++ codes ";")) offset fs s

  -- The first type that the type manager does not have ends the loop.
  abbrev pub load_on : (FS → S → Option Stop × FS × S) → Option Stop × FS × S → Option Stop × FS × S
  load_on rest (none, fs, s) = rest fs s
  load_on rest (some stop, fs, s) = (some stop, fs, s)

  abbrev pub load_table : (ℕ → Option (Bytes × ℕ)) → Bytes → List ℕ → FS → S → Option Stop × FS × S
  load_table table space [] fs s = (none, fs, s)
  load_table table space (pc ∷ pcs) fs s =
      load_on (load_table table space pcs) (load_entry space pc (table pc) fs s)

  module _ (api : NetnodeApi) (unset : ℕ) where
    open api use {Db}

    add_typed-typed_scope :
        (space : Bytes) (offset : ℕ) (usepoint : Option ℕ) (r : Result D × FS) (s : S)
        → add_typed api parse_decl find scope unset space offset usepoint r s
          ≡ typed_scope space offset usepoint r s
    unfolding add_typed
    add_typed-typed_scope space offset usepoint (ok d, fs) s = refl
    add_typed-typed_scope space offset usepoint (Result.no_model, fs) s = refl
    add_typed-typed_scope space offset usepoint (Result.out_of_fuel, fs) s = refl

    load_found-load_missing :
        (space : Bytes) (offset : ℕ) (usepoint : Option ℕ) (t : T) (sym : Option Symbol) (fs : FS)
        (s : S)
        → load_found api parse_decl find scope unset space offset usepoint (some t) sym sym fs s
          ≡ load_missing space offset usepoint t sym fs s
    unfolding load_found
    load_found-load_missing space offset usepoint t none fs s =
        add_typed-typed_scope space offset usepoint (find t fs) s
    load_found-load_missing space offset usepoint t (some symbol) fs s = refl

    load_at-parsed :
        (space : Bytes) (pc offset : ℕ) (type : Option T) (fs : FS) (s : S)
        → load_at api parse_decl find scope unset space pc (Saved.returns type (some offset)) fs s
          ≡ load_parsed space pc type offset fs s
    unfolding load_at offset_or load_found
    load_at-parsed space pc offset none fs s = refl
    load_at-parsed space pc offset (some t) fs s =
        let usepoint = usepoint_of (searched space) pc in
        load_found-load_missing (searched space) offset usepoint t
          (scope.find_addr (searched space) offset usepoint s) fs s

    load_at-entry :
        (space : Bytes) (pc : ℕ) (entry : Option (Bytes × ℕ)) (fs : FS) (s : S)
        → load_at api parse_decl find scope unset space pc (read_type api parse_decl entry) fs s
          ≡ load_entry space pc entry fs s
    unfolding load_at load_found
    load_at-entry space pc none fs s = refl
    load_at-entry space pc (some (type_name, offset)) fs s =
        load_at-parsed space pc offset (parse_decl (type_name ++ codes ";")) fs s

    -- What the rest of the loop leaves, beside the database.
    abbrev Agrees : Option Stop × Db × FS × S → Option Stop × FS × S → Type 0
    Agrees r l = (r.0 ≡ l.0) × (r.2 ≡ l.1) × (r.3 ≡ l.2)

    go_on-load_on :
        (rest : Db → FS → S → Option Stop × Db × FS × S) (rest' : FS → S → Option Stop × FS × S)
        (db : Db) (r : Option Stop × FS × S)
        → ((fs : FS) (s : S) → Agrees (rest db fs s) (rest' fs s))
        → Agrees (go_on api parse_decl find scope unset rest db r) (load_on rest' r)
    go_on-load_on rest rest' db (none, fs, s) h = h fs s
    go_on-load_on rest rest' db (some stop, fs, s) h = (refl, refl, refl)

    pub load_vars-table :
        (table : ℕ → Option (Bytes × ℕ)) (func : ℕ) (space : Bytes) (pcs : List ℕ) (db : Db)
        (fs : FS) (s : S)
        → ((pc : ℕ)
            → types_in api parse_decl db func space pc ≡ read_type api parse_decl (table pc))
        → let r = load_vars api parse_decl find scope unset func space pcs db fs s in
          let l = load_table table space pcs fs s in (r.0 ≡ l.0) × (r.2 ≡ l.1) × (r.3 ≡ l.2)
    unfolding load_vars
    load_vars-table table func space [] db fs s same = (refl, refl, refl)
    load_vars-table table func space (pc ∷ pcs) db fs s same =
        let db' : Db = (find_type api parse_decl func pc space db).1 in
        rw (same pc, load_at-entry space pc (table pc) fs s)
          (go_on-load_on (load_vars api parse_decl find scope unset func space pcs)
            (load_table table space pcs) db' (load_entry space pc (table pc) fs s)
            λ fs' s'. load_vars-table table func space pcs db' fs' s' (
              find_type_keeps api parse_decl func pc space
                (λ d.
                  (pc' : ℕ)
                  → types_in api parse_decl d func space pc' ≡ read_type api parse_decl (table pc'))
                (λ n d h pc'. types_in-open_node api parse_decl n space func pc' d ∙ h pc') db
                same))

  typed_scope-quiet :
      (space : Bytes) (offset : ℕ) (usepoint : Option ℕ) (r : Result D × FS) (s : S)
      → is_search (typed_scope space offset usepoint r s).0 ≡ false
  typed_scope-quiet space offset usepoint (ok d, fs) s = refl
  typed_scope-quiet space offset usepoint (Result.no_model, fs) s = refl
  typed_scope-quiet space offset usepoint (Result.out_of_fuel, fs) s = refl

  load_missing-quiet :
      (space : Bytes) (offset : ℕ) (usepoint : Option ℕ) (t : T) (sym : Option Symbol) (fs : FS)
      (s : S)
      → is_search (load_missing space offset usepoint t sym fs s).0 ≡ false
  load_missing-quiet space offset usepoint t none fs s =
      typed_scope-quiet space offset usepoint (find t fs) s
  load_missing-quiet space offset usepoint t (some symbol) fs s = refl

  load_parsed-quiet :
      (space : Bytes) (pc : ℕ) (type : Option T) (offset : ℕ) (fs : FS) (s : S)
      → is_search (load_parsed space pc type offset fs s).0 ≡ false
  load_parsed-quiet space pc none offset fs s = refl
  load_parsed-quiet space pc (some t) offset fs s =
      let usepoint = usepoint_of (searched space) pc in
      load_missing-quiet (searched space) offset usepoint t
        (scope.find_addr (searched space) offset usepoint s) fs s

  load_entry-quiet :
      (space : Bytes) (pc : ℕ) (entry : Option (Bytes × ℕ)) (fs : FS) (s : S)
      → is_search (load_entry space pc entry fs s).0 ≡ false
  load_entry-quiet space pc none fs s = refl
  load_entry-quiet space pc (some (type_name, offset)) fs s =
      load_parsed-quiet space pc (parse_decl (type_name ++ codes ";")) offset fs s

  load_on-quiet :
      (rest : FS → S → Option Stop × FS × S) (r : Option Stop × FS × S)
      → is_search r.0 ≡ false
      → ((fs : FS) (s : S) → is_search (rest fs s).0 ≡ false)
      → is_search (load_on rest r).0 ≡ false
  load_on-quiet rest (none, fs, s) h h' = h' fs s
  load_on-quiet rest (some stop, fs, s) h h' = h

  -- The exception of a search is not among what ends the loop.
  pub load_table-quiet :
      (table : ℕ → Option (Bytes × ℕ)) (space : Bytes) (pcs : List ℕ) (fs : FS) (s : S)
      → is_search (load_table table space pcs fs s).0 ≡ false
  load_table-quiet table space [] fs s = refl
  load_table-quiet table space (pc ∷ pcs) fs s =
      load_on-quiet (load_table table space pcs) (load_entry space pc (table pc) fs s)
        (load_entry-quiet space pc (table pc) fs s) (load_table-quiet table space pcs)
