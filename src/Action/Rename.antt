-- ===== src/Action/Rename.antt =====
-- `ActionRenameVar::apply` of yagi/src/yagiaction.cc: the saved names are given to the variables.
pub mod Laws
pub mod Nodes
pub mod Table
use yagi.Common.{ℕ, List, [], ◌∷◌, ◌++◌, Option, none, some, Bytes, codes, bytes_eq, if◌then◌else◌}
use yagi.Base.Stoull.{Stoull}
use yagi.Symbol.Netnode.{NetnodeApi}
use yagi.Symbol.Saved.{Outcome, throws, returns, find_name}

-- What the action does to the local scope; a symbol is its number.
pub data Renaming : Type 0 where
  rename_symbol : ℕ → Bytes → Renaming
  lock_name : ℕ → Renaming

-- A constant is looked up on the stack.
unfoldable pub searched : Bytes → Bytes
searched space = if bytes_eq space (codes "const") then codes "stack" else space

-- `offset` if the search has set it; what it holds else is the argument.
unfoldable pub offset_or : ℕ → Option ℕ → ℕ
offset_or unset none = unset
offset_or unset (some offset) = offset

-- `find_addr` is the local scope's: the symbol at an address of a space, seen from an operation.
module _ (api : NetnodeApi) (find_addr : Bytes → ℕ → ℕ → Option ℕ) (unset : ℕ) where
  open api use {Db}

  pub rename_found : Option ℕ → Option Bytes → List Renaming
  rename_found sym none = []
  rename_found none (some name) = []
  rename_found (some sym) (some name) = rename_symbol sym name ∷ lock_name sym ∷ []

  pub rename_at : Bytes → ℕ → Option Bytes → Option ℕ → List Renaming
  unfolding rename_found searched offset_or
  rename_at space pc name offset =
      rename_found (find_addr (searched space) (offset_or unset offset) pc) name

  -- What follows a search: its exception, or the renaming and the rest of the loop.
  pub continue_with :
      Bytes
      → ℕ
      → Db
      → Outcome Bytes
      → Option Stoull × List Renaming × Db
      → Option Stoull × List Renaming × Db
  continue_with space pc db (throws e) rest = (some e, [], db)
  continue_with space pc db (returns name offset) (thrown, renamings, db') =
      (thrown, rename_at space pc name offset ++ renamings, db')

  -- The loop over the operations, by their addresses.
  pub rename_vars : ℕ → Bytes → List ℕ → Db → Option Stoull × List Renaming × Db
  rename_vars func space [] db = (none, [], db)
  rename_vars func space (pc ∷ pcs) db =
      let (found, db') = find_name api func pc space db in
      continue_with space pc db' found (rename_vars func space pcs db')
