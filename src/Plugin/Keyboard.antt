-- ===== src/Plugin/Keyboard.antt =====
-- `_KeyboardCallback` of yagi/src/plugin.cc: the keys of the view.
pub mod Laws
pub mod Throws
pub mod Change
pub mod Pointed
use yagi.Common.{
  ℕ, Bool, true, false, not, List, [], ◌∷◌, Option, none, some, Bytes, codes, bytes_eq, ◌==◌,
  if◌then◌else◌,
}
use yagi.Common.Maps.{lookup}
use yagi.Symbol.Location.{MemoryLocation}
use yagi.Symbol.Netnode.{NetnodeApi}
use yagi.Symbol.Saved.{save_name, save_type, clear_type}
use yagi.Plugin.DeclType.{TypeInfo, print_decl_type}

-- What IDA and its user answer. `parse_decl` gives the name of the type that a text declares.
pub record Ida : Type 0 where
  pub find_symbol : ℕ → Option Bytes
  pub find_function : ℕ → Option ℕ
  pub build : ℕ → Option TypeInfo
  pub ask_str : Bytes → Option Bytes
  pub parse_decl : Bytes → Option Bytes

-- What the callback makes IDA do, beside the netnodes.
pub data Effect : Type 0 where
  open_xrefs_window : ℕ → Effect
  set_name : ℕ → Bytes → Effect
  set_tinfo : ℕ → Bytes → Effect
  run_yagi : Effect

-- The callback returns, or `std::optional::value` throws.
pub data Answer : Type 0 where
  returns : Bool → Answer
  bad_optional_access : Answer

module _ (api : NetnodeApi) (ida : Ida) where
  open api use {Db}
  open ida use {find_symbol, find_function, build, ask_str, parse_decl}

  abbrev pub Handled : Type 0
  Handled = Answer × List Effect × Db

  -- Key N. The address of a symbol is renamed in IDA, and a variable in the netnodes.
  rename_ram : ℕ → Option Bytes → Db → Handled
  rename_ram offset none db = (returns false, [], db)
  rename_ram offset (some symbol) db = elim (ask_str symbol) [
    | none ↦ (returns true, [], db)
    | some name ↦ (returns true, set_name offset name ∷ run_yagi ∷ [], db)
  ]

  pub rename_variable : Option ℕ → Bytes → MemoryLocation → Db → Handled
  rename_variable none keyword loc db = (returns false, [], db)
  rename_variable (some func) keyword loc db = elim (ask_str keyword) [
    | none ↦ (returns true, [], db)
    | some name ↦ (returns true, run_yagi ∷ [], save_name api func loc name db)
  ]

  -- Key Y.
  retype_ram : ℕ → Bytes → Option TypeInfo → Db → Handled
  retype_ram offset keyword none db = (returns true, [], db)
  retype_ram offset keyword (some type) db = elim (ask_str (print_decl_type keyword type)) [
    | none ↦ (returns true, [], db)
    | some decl ↦ elim (parse_decl decl) [
      | none ↦ (returns true, [], db)
      | some parsed ↦ (returns true, set_tinfo offset parsed ∷ run_yagi ∷ [], db)
    ]
  ]

  -- The function is asked for only once there is a type to save.
  save_parsed : Option ℕ → Bytes → MemoryLocation → Db → Handled
  save_parsed none parsed loc db = (bad_optional_access, [], db)
  save_parsed (some func) parsed loc db =
      (returns true, run_yagi ∷ [], save_type api func loc parsed db)

  retype_variable : Option ℕ → MemoryLocation → Db → Handled
  unfolding save_parsed
  retype_variable func loc db = elim (ask_str []) [
    | none ↦ (returns true, [], db)
    | some decl ↦ elim (parse_decl decl) [
      | none ↦ (returns true, [], db)
      | some parsed ↦ save_parsed func parsed loc db
    ]
  ]

  -- Key C.
  clear_variable : Option ℕ → MemoryLocation → Db → Handled
  clear_variable none loc db = (bad_optional_access, [], db)
  clear_variable (some func) loc db =
      let (done, db') = clear_type api func loc db in
      if done then (returns true, run_yagi ∷ [], db') else (returns true, [], db')

  pub on_key : ℕ → Option ℕ → Bytes → MemoryLocation → Db → Handled
  unfolding rename_ram rename_variable retype_ram retype_variable clear_variable
  on_key key func keyword loc db =
      let in_ram = bytes_eq loc.space_name (codes "ram") in
      if key == b'X'
      then (if in_ram
          then (returns true, open_xrefs_window loc.offset ∷ [], db)
          else (returns true, [], db))
      else if key == b'N'
      then (if in_ram
          then rename_ram loc.offset (find_symbol loc.offset) db
          else rename_variable func keyword loc db)
      else if key == b'Y'
      then (if in_ram
          then retype_ram loc.offset keyword (build loc.offset) db
          else retype_variable func loc db)
      else if key == b'C'
      then clear_variable func loc db
      else (returns true, [], db)

  on_symbol : ℕ → ℕ → Bytes → Option MemoryLocation → Db → Handled
  unfolding on_key
  on_symbol ea key keyword none db = (returns false, [], db)
  on_symbol ea key keyword (some loc) db = on_key key (find_function ea) keyword loc db

  on_keyword : ℕ → List (Bytes × MemoryLocation) → ℕ → Option Bytes → Db → Handled
  unfolding on_symbol
  on_keyword ea symbols key none db = (returns false, [], db)
  on_keyword ea symbols key (some keyword) db = on_symbol ea key keyword (lookup keyword symbols) db

  -- `ea` and `symbols` are those of the view's `Decompiler::Result`; `keyword` is what
  -- `_ComputeKeyword` returns.
  pub keyboard : ℕ → List (Bytes × MemoryLocation) → ℕ → ℕ → Option Bytes → Db → Handled
  unfolding on_keyword
  keyboard ea symbols key shift keyword db =
      if not (shift == 0) then (returns false, [], db) else on_keyword ea symbols key keyword db
