-- ===== src/Scope/Proxy.antt =====
-- What `YagiScope` asks of others: `ScopeInternal`, the scope of Ghidra behind it, with what its
-- documentation says of the symbols added to it, the symbol database and the type manager.
use yagi.Common.{ℕ, ◌≡◌, Bool, Option, some, Bytes}
use yagi.Symbol.Info.{Kind}

pub record Address : Type 0 where
  pub in_code_space : Bool
  pub offset : ℕ

-- `SymbolInfo` of yagi/include/symbolinfo.hh, as far as the scope reads it.
pub record SymbolInfo : Type 0 where
  pub name : Bytes
  pub kind : Kind
  pub is_import : Bool
  pub is_label : Bool
  pub is_read_only : Bool

-- A state `S` of the proxy, its symbols, its entries and the data of its functions.
pub record ScopeInternal : Type 1 where
  pub S : Type 0
  pub Symbol : Type 0
  pub Entry : Type 0
  pub Funcdata : Type 0
  pub find_function : Address → S → Option Funcdata
  pub find_container : Address → ℕ → Address → S → Option Entry
  pub find_external_ref : Address → S → Option Symbol
  pub find_code_label : Address → S → Option Symbol
  pub add_function : Address → Bytes → S → Symbol × S
  pub add_external_ref : Address → Bytes → S → Symbol × S
  pub add_code_label : Address → Bytes → S → Symbol × S
  -- A data symbol of the type at an address, or of an unknown type of a size.
  pub add_typed : Bytes → ℕ → S → Symbol × S
  pub add_unknown : Bytes → ℕ → S → Symbol × S
  pub set_read_only : Symbol → S → S
  pub add_map_point : Symbol → Address → Address → S → Entry × S
  pub get_function : Symbol → Funcdata
  pub function_name : Funcdata → Bytes
  -- `setInjectAttribute`, which goes through Ghidra's XML, and `TypeManager::update`, which may
  -- throw: `false` is an exception.
  pub set_inject : Funcdata → Bytes → S → S
  pub update : Funcdata → S → Bool × S
  -- What was added is found at its address.
  pub find_external_ref-add :
      (a : Address) (name : Bytes) (s : S)
      → find_external_ref a (add_external_ref a name s).1 ≡ some (add_external_ref a name s).0
  pub find_code_label-add :
      (a : Address) (name : Bytes) (s : S)
      → find_code_label a (add_code_label a name s).1 ≡ some (add_code_label a name s).0
  -- A function that was added is found, and neither an injection nor a prototype removes it.
  pub find_function-add :
      (a : Address) (name : Bytes) (s : S)
      → find_function a (add_function a name s).1 ≡ some (get_function (add_function a name s).0)
  pub find_function-set_inject :
      (a : Address) (f : Funcdata) (name : Bytes) (s : S)
      → find_function a (set_inject f name s) ≡ find_function a s
  pub find_function-update :
      (a : Address) (f : Funcdata) (s : S) → find_function a (update f s).1 ≡ find_function a s
