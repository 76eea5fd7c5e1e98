-- ===== src/Plugin/Keyboard/Laws.antt =====
-- What the keys change.
use yagi.Common.{
  ℕ, ◌^◌, ◌<◌, ◌≡◌, refl, true, false, List, [], ◌∷◌, some, Bytes, codes, bytes_eq, Lacks,
}
use yagi.Common.Maps.{lookup}
use yagi.Symbol.Location.{MemoryLocation}
use yagi.Symbol.Netnode.{NetnodeApi}
use yagi.Symbol.Saved
use yagi.Symbol.Saved.{find_name, find_type, save_name, save_type, clear_type}
use yagi.Symbol.Saved.Laws.{elem, find_name-save_name}
use yagi.Plugin.Keyboard.{Ida, run_yagi, returns, rename_variable, on_symbol, keyboard}

module _ (api : NetnodeApi) (ida : Ida) where
  open api use {Db}
  open ida use {find_function, ask_str, parse_decl}

  -- Key N, on a word that stands for a variable outside RAM with a 64-bit offset, within a
  -- function: if the user answers a name without a bar, the callback returns true, makes the
  -- plugin run again and nothing else in IDA, and the name is then found at each definition
  -- address of the variable, with its offset.
  pub keyboard-rename :
      (ea func pc : ℕ) (symbols : List (Bytes × MemoryLocation)) (keyword name : Bytes)
      (loc : MemoryLocation) (db : Db)
      → lookup keyword symbols ≡ some loc
      → bytes_eq loc.space_name (codes "ram") ≡ false
      → find_function ea ≡ some func
      → ask_str keyword ≡ some name
      → Lacks b'|' name
      → loc.offset < 2 ^ 64
      → elem pc loc.pc ≡ true
      → let (answer, effects, db') = keyboard api ida ea symbols b'N' 0 (some keyword) db in
        (answer ≡ returns true)
        × (effects ≡ run_yagi ∷ [])
        × ((find_name api func pc loc.space_name db').0
            ≡ Saved.returns (some name) (some loc.offset))
  unfolding keyboard
  keyboard-rename ea func pc symbols keyword name loc db listed local known asked bar fits defined =
      rw (listed, on_symbol, known, local, asked, rename_variable)
        (refl, refl, find_name-save_name api func loc name pc db bar fits defined)
