-- ===== src/Action/Rename/Laws.antt =====
-- The names the variables get after a name was saved.
use mathlib.Core.Bool.{false≢true}
use yagi.Common.{
  ℕ, ◌≡◌, refl, sym, ap, ◌∙◌, Bool, true, false, List, [], ◌∷◌, ◌++◌, Option, none, Bytes,
  append_assoc,
}
use yagi.Base.Stoull.{Stoull}
use yagi.Symbol.Netnode.{NetnodeApi}
use yagi.Symbol.Saved.{Outcome, throws, returns, find_name}
use yagi.Symbol.Saved.Laws.{find_name-find_name}
use yagi.Action.Rename.{Renaming, rename_at, continue_with, rename_vars}

abbrev pub is_thrown : Outcome Bytes → Bool
is_thrown (throws e) = true
is_thrown (returns name offset) = false

module _ (api : NetnodeApi) (find_addr : Bytes → ℕ → ℕ → Option ℕ) (unset : ℕ) where
  open api use {Db, valstr-open_node}

  abbrev pub found_at : Bytes → ℕ → Outcome Bytes → List Renaming
  found_at space pc (throws e) = []
  found_at space pc (returns name offset) = rename_at api find_addr unset space pc name offset

  -- The renamings, where each search has the result of `look`.
  abbrev pub collect : (ℕ → Outcome Bytes) → Bytes → List ℕ → List Renaming
  collect look space [] = []
  collect look space (pc ∷ pcs) = found_at space pc (look pc) ++ collect look space pcs

  continue_with-found_at :
      (space : Bytes) (pc : ℕ) (db : Db) (o : Outcome Bytes) (es : List Renaming)
      (rest : Option Stoull × List Renaming × Db)
      → is_thrown o ≡ false
      → rest.0 ≡ none
      → rest.1 ≡ es
      → ((continue_with api find_addr unset space pc db o rest).0 ≡ none)
        × ((continue_with api find_addr unset space pc db o rest).1 ≡ found_at space pc o ++ es)
  unfolding continue_with
  continue_with-found_at space pc db (throws e) es rest quiet done same =
      absurd (false≢true (sym quiet))
  continue_with-found_at space pc db (returns name offset) es rest quiet done same =
      (done, ap (λ l. rename_at api find_addr unset space pc name offset ++ l) same)

  pub rename_vars-collect :
      (look : ℕ → Outcome Bytes) (func : ℕ) (space : Bytes) (pcs : List ℕ) (db : Db)
      → ((pc : ℕ) → (find_name api func pc space db).0 ≡ look pc)
      → ((pc : ℕ) → is_thrown (look pc) ≡ false)
      → ((rename_vars api find_addr unset func space pcs db).0 ≡ none)
        × ((rename_vars api find_addr unset func space pcs db).1 ≡ collect look space pcs)
  unfolding rename_vars
  rename_vars-collect look func space [] db same quiet = (refl, refl)
  rename_vars-collect look func space (pc ∷ pcs) db same quiet =
      let db' = (find_name api func pc space db).1 in
      let (done, rest) =
        rename_vars-collect look func space pcs db'
          (λ pc'. find_name-find_name api func space pc pc' db ∙ same pc') quiet in
      rw (same pc) (
        continue_with-found_at space pc db' (look pc) (collect look space pcs)
          (rename_vars api find_addr unset func space pcs db') (quiet pc) done rest)

  collect-append :
      (look : ℕ → Outcome Bytes) (space : Bytes) (pcs pcs' : List ℕ)
      → collect look space (pcs ++ pcs') ≡ collect look space pcs ++ collect look space pcs'
  collect-append look space [] pcs' = refl
  collect-append look space (pc ∷ pcs) pcs' =
      ap (◌++◌ (found_at space pc (look pc))) (collect-append look space pcs pcs')
      ∙ sym (
          append_assoc (found_at space pc (look pc)) (collect look space pcs)
            (collect look space pcs'))
