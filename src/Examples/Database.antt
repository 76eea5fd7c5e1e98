-- ===== src/Examples/Database.antt =====
-- A store of netnodes as a function, and the data the examples share.
use yagi.Common.{
  ℕ, refl, List, [], none, some, Bytes, codes, bytes_eq, not, if◌then◌else◌, Bool, ◌&&◌, ◌||◌, leb,
}
use yagi.Symbol.Netnode.{NetnodeApi, is_empty}
use yagi.Symbol.Location.{MemoryLocation}
use yagi.Plugin.Keyboard.{Ida}

abbrev pub memory : NetnodeApi
memory = record {
  Db = Bytes → Bytes;
  open_node = λ k db. db;
  valstr = λ k db. db k;
  set = λ j v db k. if bytes_eq j k then v else db k;
  delvalue = λ j db. (not (is_empty (db j)), λ k. if bytes_eq j k then [] else db k);
  valstr-open_node = λ k j db. refl;
  valstr-set = λ k j v db. refl;
  valstr-delvalue = λ k j db. refl;
  delvalue-done = λ j db. refl;
}

abbrev pub empty_db : Bytes → Bytes
empty_db k = []

abbrev pub register_at : List ℕ → MemoryLocation
register_at pcs = record { space_name = codes "register"; offset = 16; addr_size = 8; pc = pcs }

-- An IDA with one function, whose user answers `count` and `int`.
abbrev pub ida : Ida
ida = record {
  find_symbol = λ ea. some (codes "main");
  find_function = λ ea. some 4096;
  build = λ ea. none;
  ask_str = λ text. some (codes "count");
  parse_decl = λ text. some (codes "int");
}

-- The same outside every function.
abbrev pub ida_outside : Ida
ida_outside = record {
  find_symbol = λ ea. none;
  find_function = λ ea. none;
  build = λ ea. none;
  ask_str = λ text. some (codes "int");
  parse_decl = λ text. some (codes "int");
}

-- The letters and digits of ASCII.
abbrev pub is_ascii_alnum : ℕ → Bool
is_ascii_alnum c =
    (leb b'0' c && leb c b'9') || ((leb b'A' c && leb c b'Z') || (leb b'a' c && leb c b'z'))
