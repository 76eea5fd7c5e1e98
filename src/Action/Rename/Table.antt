-- ===== src/Action/Rename/Table.antt =====
-- The renamings of the variables of a space, where each search returns what a table has.
use yagi.Common.{ℕ, ◌≡◌, refl, ap₂, ◌∙◌, false, List, [], ◌∷◌, ◌++◌, Option, none, some, Bytes}
use yagi.Symbol.Netnode.{NetnodeApi}
use yagi.Symbol.Saved.Tables.{shown, names_in}
use yagi.Action.Rename.{
  Renaming, rename_symbol, lock_name, searched, offset_or, rename_found, rename_at, rename_vars,
}
use yagi.Action.Rename.Laws.{is_thrown, found_at, collect, rename_vars-collect}

-- A symbol is given its name, which is locked.
abbrev pub given : Bytes → Option ℕ → List Renaming
given name none = []
given name (some symbol) = rename_symbol symbol name ∷ lock_name symbol ∷ []

module _ (find_addr : Bytes → ℕ → ℕ → Option ℕ) where
  -- The symbol is the one that the local scope has at the saved offset.
  abbrev pub entry_renamings : Bytes → ℕ → Option (Bytes × ℕ) → List Renaming
  entry_renamings space pc none = []
  entry_renamings space pc (some (name, offset)) = given name (find_addr (searched space) offset pc)

  abbrev pub table_renamings : (ℕ → Option (Bytes × ℕ)) → Bytes → List ℕ → List Renaming
  table_renamings table space [] = []
  table_renamings table space (pc ∷ pcs) =
      entry_renamings space pc (table pc) ++ table_renamings table space pcs

  module _ (api : NetnodeApi) (unset : ℕ) where
    open api use {Db}

    rename_found-given :
        (sym : Option ℕ) (name : Bytes)
        → rename_found api find_addr unset sym (some name) ≡ given name sym
    unfolding rename_found
    rename_found-given none name = refl
    rename_found-given (some symbol) name = refl

    rename_found-none : (sym : Option ℕ) → rename_found api find_addr unset sym none ≡ []
    unfolding rename_found
    rename_found-none sym = refl

    found_at-shown :
        (space : Bytes) (pc : ℕ) (entry : Option (Bytes × ℕ))
        → found_at api find_addr unset space pc (shown entry) ≡ entry_renamings space pc entry
    unfolding rename_at offset_or
    found_at-shown space pc none = rename_found-none (find_addr (searched space) unset pc)
    found_at-shown space pc (some (name, offset)) =
        rename_found-given (find_addr (searched space) offset pc) name

    shown-quiet : (entry : Option (Bytes × ℕ)) → is_thrown (shown entry) ≡ false
    shown-quiet none = refl
    shown-quiet (some (name, offset)) = refl

    collect-shown :
        (table : ℕ → Option (Bytes × ℕ)) (space : Bytes) (pcs : List ℕ)
        → collect api find_addr unset (λ pc. shown (table pc)) space pcs
          ≡ table_renamings table space pcs
    collect-shown table space [] = refl
    collect-shown table space (pc ∷ pcs) =
        ap₂ ◌++◌ (found_at-shown space pc (table pc)) (collect-shown table space pcs)

    pub rename_vars-table :
        (table : ℕ → Option (Bytes × ℕ)) (func : ℕ) (space : Bytes) (pcs : List ℕ) (db : Db)
        → ((pc : ℕ) → names_in api db func space pc ≡ shown (table pc))
        → let r = rename_vars api find_addr unset func space pcs db in
          (r.0 ≡ none) × (r.1 ≡ table_renamings table space pcs)
    rename_vars-table table func space pcs db same =
        let (done, all) =
          rename_vars-collect api find_addr unset (λ pc. shown (table pc)) func space pcs db same
            (λ pc. shown-quiet (table pc)) in
        (done, all ∙ collect-shown table space pcs)
