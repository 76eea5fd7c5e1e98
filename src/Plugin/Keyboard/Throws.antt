-- ===== src/Plugin/Keyboard/Throws.antt =====
-- Where the callback is left by the exception of an empty optional.
use yagi.Common.{
  ℕ, ◌≡◌, refl, Bool, true, false, ◌&&◌, ◌||◌, not, List, [], Option, none, some, arith, Bytes,
  codes, bytes_eq, ◌==◌, Bool-cases, inl, inr,
}
use yagi.Common.Maps.{lookup}
use yagi.Symbol.Location.{MemoryLocation}
use yagi.Symbol.Netnode.{NetnodeApi}
use yagi.Plugin.DeclType.{TypeInfo}
use yagi.Plugin.Keyboard.{
  Ida, Answer, returns, bad_optional_access, rename_ram, rename_variable, retype_ram, save_parsed,
  retype_variable, clear_variable, on_key, on_symbol, on_keyword, keyboard,
}

abbrev pub is_bad_access : Answer → Bool
is_bad_access (returns b) = false
is_bad_access bad_optional_access = true

abbrev pub is_missing {ℓ} : {A : Type ℓ} → Option A → Bool
is_missing none = true
is_missing (some x) = false

module _ (api : NetnodeApi) (ida : Ida) where
  open api use {Db}
  open ida use {find_function, ask_str, parse_decl}

  -- The user gives a declaration, and IDA reads it.
  abbrev pub reads : Option Bytes → Bool
  reads none = false
  reads (some decl) = not (is_missing (parse_decl decl))

  abbrev pub declares : Bool
  declares = reads (ask_str [])

  rename_ram-returns :
      (offset : ℕ) (symbol : Option Bytes) (db : Db)
      → is_bad_access (rename_ram api ida offset symbol db).0 ≡ false
  unfolding rename_ram
  rename_ram-returns offset none db = refl
  rename_ram-returns offset (some symbol) db = ground (arith)

  rename_variable-returns :
      (func : Option ℕ) (keyword : Bytes) (loc : MemoryLocation) (db : Db)
      → is_bad_access (rename_variable api ida func keyword loc db).0 ≡ false
  unfolding rename_variable
  rename_variable-returns none keyword loc db = refl
  rename_variable-returns (some func) keyword loc db = ground (arith)

  retype_ram-returns :
      (offset : ℕ) (keyword : Bytes) (type : Option TypeInfo) (db : Db)
      → is_bad_access (retype_ram api ida offset keyword type db).0 ≡ false
  unfolding retype_ram
  retype_ram-returns offset keyword none db = refl
  retype_ram-returns offset keyword (some type) db = ground (arith)

  retype_variable-throws :
      (func : Option ℕ) (loc : MemoryLocation) (db : Db)
      → is_bad_access (retype_variable api ida func loc db).0 ≡ (is_missing func && declares)
  unfolding retype_variable save_parsed
  retype_variable-throws none loc db = ground (arith)
  retype_variable-throws (some func) loc db = ground (arith)

  clear_variable-throws :
      (func : Option ℕ) (loc : MemoryLocation) (db : Db)
      → is_bad_access (clear_variable api ida func loc db).0 ≡ is_missing func
  unfolding clear_variable
  clear_variable-throws none loc db = refl
  clear_variable-throws (some func) loc db = ground (arith)

  -- The keys that ask for the function without a test.
  abbrev pub asks_function : ℕ → MemoryLocation → Bool
  asks_function key loc =
      key == b'C' || (key == b'Y' && (not (bytes_eq loc.space_name (codes "ram")) && declares))

  on_key-throws :
      (key : ℕ) (func : Option ℕ) (keyword : Bytes) (loc : MemoryLocation) (db : Db)
      → is_bad_access (on_key api ida key func keyword loc db).0
        ≡ (is_missing func && asks_function key loc)
  unfolding on_key
  on_key-throws key func keyword loc db = ground (
    arith,
    rename_ram-returns loc.offset (ida.find_symbol loc.offset) db,
    rename_variable-returns func keyword loc db,
    retype_ram-returns loc.offset keyword (ida.build loc.offset) db,
    retype_variable-throws func loc db,
    clear_variable-throws func loc db,
  )

  -- On a word that stands for a location, the callback is left by the exception of an empty
  -- optional exactly if no modifier is pressed, there is no function, and the key is C, or it is
  -- Y on a location outside RAM and the user gives a declaration that IDA reads.
  pub keyboard-throws :
      (ea key shift : ℕ) (symbols : List (Bytes × MemoryLocation)) (keyword : Bytes)
      (loc : MemoryLocation) (db : Db)
      → lookup keyword symbols ≡ some loc
      → is_bad_access (keyboard api ida ea symbols key shift (some keyword) db).0
        ≡ (shift == 0 && (is_missing (find_function ea) && asks_function key loc))
  unfolding keyboard on_keyword on_symbol
  keyboard-throws ea key shift symbols keyword loc db listed = elim (Bool-cases (shift == 0)) [
    | inl e ↦ rw (e, listed) (on_key-throws key (find_function ea) keyword loc db)
    | inr e ↦ rw e refl
  ]
