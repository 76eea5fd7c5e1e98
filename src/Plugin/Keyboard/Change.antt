-- ===== src/Plugin/Keyboard/Change.antt =====
-- What a press asks for, and that the netnodes after it are those after one call: `saveName`,
-- `saveType` or `clearType`, or none.
use yagi.Common.{
  ℕ, ◌≡◌, refl, List, [], Option, none, some, arith, Bytes, codes, bytes_eq, ◌==◌, if◌then◌else◌,
  Option-cases, inl, inr,
}
use yagi.Common.Maps.{lookup}
use yagi.Symbol.Location.{MemoryLocation}
use yagi.Symbol.Netnode.{NetnodeApi}
use yagi.Symbol.Saved.{save_name, save_type, clear_type}
use yagi.Plugin.DeclType.{TypeInfo}
use yagi.Plugin.Keyboard.{
  Ida, rename_ram, rename_variable, retype_ram, save_parsed, retype_variable, clear_variable,
  on_key, on_symbol, on_keyword, keyboard,
}

pub data Change : Type 0 where
  nothing : Change
  named typed : ℕ → MemoryLocation → Bytes → Change
  cleared : ℕ → MemoryLocation → Change

abbrev pub name_change : ℕ → MemoryLocation → Option Bytes → Change
name_change func loc none = nothing
name_change func loc (some name) = named func loc name

abbrev pub type_change : ℕ → MemoryLocation → Option Bytes → Change
type_change func loc none = nothing
type_change func loc (some type_name) = typed func loc type_name

-- The name of the type that the user declares.
abbrev pub declared : Ida → Option Bytes
declared ida = elim (ida.ask_str []) [ none ↦ none | some decl ↦ ida.parse_decl decl ]

-- In RAM only key C has a part in the netnodes.
abbrev pub key_change : Ida → ℕ → ℕ → Bytes → MemoryLocation → Change
key_change ida key func keyword loc =
    if key == b'C'
    then cleared func loc
    else if bytes_eq loc.space_name (codes "ram")
    then nothing
    else if key == b'N'
    then name_change func loc (ida.ask_str keyword)
    else if key == b'Y'
    then type_change func loc (declared ida)
    else nothing

abbrev pub located_change : Ida → ℕ → Bytes → Option ℕ → Option MemoryLocation → Change
located_change ida key keyword (some func) (some loc) = key_change ida key func keyword loc
located_change ida key keyword none loc = nothing
located_change ida key keyword (some func) none = nothing

-- Only a press without a modifier, on a word that stands for a location, within a function, asks
-- for a change.
abbrev pub change_of : Ida → ℕ → List (Bytes × MemoryLocation) → ℕ → ℕ → Option Bytes → Change
change_of ida ea symbols key shift none = nothing
change_of ida ea symbols key shift (some keyword) =
    if shift == 0
    then located_change ida key keyword (ida.find_function ea) (lookup keyword symbols)
    else nothing

module _ (api : NetnodeApi) where
  open api use {Db}

  abbrev pub commit : Change → Db → Db
  commit nothing db = db
  commit (named func loc name) db = save_name api func loc name db
  commit (typed func loc type_name) db = save_type api func loc type_name db
  commit (cleared func loc) db = (clear_type api func loc db).1

  module _ (ida : Ida) where
    rename_ram-commit :
        (offset : ℕ) (symbol : Option Bytes) (db : Db)
        → (rename_ram api ida offset symbol db).2 ≡ db
    unfolding rename_ram
    rename_ram-commit offset none db = refl
    rename_ram-commit offset (some symbol) db = ground arith

    rename_variable-commit :
        (func : ℕ) (keyword : Bytes) (loc : MemoryLocation) (db : Db)
        → (rename_variable api ida (some func) keyword loc db).2
          ≡ commit (name_change func loc (ida.ask_str keyword)) db
    unfolding rename_variable
    rename_variable-commit func keyword loc db = ground arith

    retype_ram-commit :
        (offset : ℕ) (keyword : Bytes) (type : Option TypeInfo) (db : Db)
        → (retype_ram api ida offset keyword type db).2 ≡ db
    unfolding retype_ram
    retype_ram-commit offset keyword none db = refl
    retype_ram-commit offset keyword (some type) db = ground arith

    retype_variable-commit :
        (func : ℕ) (loc : MemoryLocation) (db : Db)
        → (retype_variable api ida (some func) loc db).2
          ≡ commit (type_change func loc (declared ida)) db
    unfolding retype_variable save_parsed
    retype_variable-commit func loc db = ground arith

    clear_variable-commit :
        (func : ℕ) (loc : MemoryLocation) (db : Db)
        → (clear_variable api ida (some func) loc db).2 ≡ (clear_type api func loc db).1
    unfolding clear_variable
    clear_variable-commit func loc db = ground arith

    on_key-commit :
        (key func : ℕ) (keyword : Bytes) (loc : MemoryLocation) (db : Db)
        → (on_key api ida key (some func) keyword loc db).2
          ≡ commit (key_change ida key func keyword loc) db
    unfolding on_key
    on_key-commit key func keyword loc db = ground (
      arith,
      rename_ram-commit loc.offset (ida.find_symbol loc.offset) db,
      rename_variable-commit func keyword loc db,
      retype_ram-commit loc.offset keyword (ida.build loc.offset) db,
      retype_variable-commit func loc db,
      clear_variable-commit func loc db,
    )

    -- Outside every function nothing is saved or cleared.
    on_key-outside :
        (key : ℕ) (keyword : Bytes) (loc : MemoryLocation) (db : Db)
        → (on_key api ida key none keyword loc db).2 ≡ db
    unfolding on_key rename_variable retype_variable save_parsed clear_variable
    on_key-outside key keyword loc db = ground (
      arith,
      rename_ram-commit loc.offset (ida.find_symbol loc.offset) db,
      retype_ram-commit loc.offset keyword (ida.build loc.offset) db,
    )

    on_symbol-commit :
        (ea key : ℕ) (keyword : Bytes) (loc : Option MemoryLocation) (db : Db)
        → (on_symbol api ida ea key keyword loc db).2
          ≡ commit (located_change ida key keyword (ida.find_function ea) loc) db
    unfolding on_symbol
    on_symbol-commit ea key keyword none db = elim (Option-cases (ida.find_function ea)) [
      | inl e ↦ rw e refl
      | inr (func, e) ↦ rw e refl
    ]
    on_symbol-commit ea key keyword (some loc) db = elim (Option-cases (ida.find_function ea)) [
      | inl e ↦ rw e (on_key-outside key keyword loc db)
      | inr (func, e) ↦ rw e (on_key-commit key func keyword loc db)
    ]

    pub keyboard-commit :
        (ea : ℕ) (symbols : List (Bytes × MemoryLocation)) (key shift : ℕ) (keyword : Option Bytes)
        (db : Db)
        → (keyboard api ida ea symbols key shift keyword db).2
          ≡ commit (change_of ida ea symbols key shift keyword) db
    unfolding keyboard on_keyword
    keyboard-commit ea symbols key shift none db = ground arith
    keyboard-commit ea symbols key shift (some keyword) db =
        ground (arith, on_symbol-commit ea key keyword (lookup keyword symbols) db)
