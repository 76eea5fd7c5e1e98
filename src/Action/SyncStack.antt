-- ===== src/Action/SyncStack.antt =====
-- `ActionSyncStackVar::apply` of yagi/src/yagiaction.cc: the variables on the stack are given the
-- names of IDA's frame.
pub mod Laws
use yagi.Common.{ℕ, List, [], ◌∷◌, ◌++◌, Option, none, some, Bytes, codes, bytes_eq, if◌then◌else◌}
use yagi.Symbol.Frame.{Frame, find_stack_var}
use yagi.Action.Rename.{Renaming, rename_symbol}

-- An entry of the local scope: its symbol, its address, and the symbol of the high variable that
-- `findHigh` finds under the symbol's name.
pub record SymbolEntry : Type 0 where
  pub symbol : ℕ
  pub space_name : Bytes
  pub offset : ℕ
  pub addr_size : ℕ
  pub high : Option ℕ

-- The high variable's symbol if there is one.
unfoldable pub renamed_symbol : SymbolEntry → ℕ
renamed_symbol s = elim s.high [ none ↦ s.symbol | some symbol ↦ symbol ]

pub rename_to : SymbolEntry → Option Bytes → List Renaming
unfolding renamed_symbol
rename_to s none = []
rename_to s (some name) = rename_symbol (renamed_symbol s) name ∷ []

pub sync_entry : Option Frame → SymbolEntry → List Renaming
unfolding rename_to
sync_entry frame s =
    if bytes_eq s.space_name (codes "stack")
    then rename_to s (find_stack_var frame s.offset s.addr_size)
    else []

pub sync_stack_vars : Option Frame → List SymbolEntry → List Renaming
unfolding sync_entry
sync_stack_vars frame [] = []
sync_stack_vars frame (s ∷ entries) = sync_entry frame s ++ sync_stack_vars frame entries
