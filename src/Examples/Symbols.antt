-- ===== src/Examples/Symbols.antt =====
-- The symbols of yagi/src/idasymbol.cc and the names of functions at concrete inputs.
use yagi.Common.{ℕ, ◌≡◌, refl, true, [], ◌∷◌, ◌++◌, Option, none, some, Bytes, codes, if◌then◌else◌}
use yagi.Base.Split.{split}
use yagi.Symbol.FunctionName.{function_name}
use yagi.Symbol.Info.{IdaSymbol, ImportModules, enum_import_names, is_import, bare_name, get_name}
use yagi.Symbol.Info.Imports.{listed, IsCleaned, IsBase, get_name-IsBase}

-- An entry of the import table, which is no function.
abbrev puts : IdaSymbol
puts = record {
  ea = 8192;
  name = codes "__imp_puts";
  func = none;
  xrefs = (true, 17) ∷ [];
  segment = some (codes ".idata");
  perm = 4;
}

abbrev modules : ImportModules
modules = none ∷ some (none ∷ some (codes "puts") ∷ []) ∷ []

abbrev refuse : ℕ → Bytes → Option Bytes
refuse ea name = none

is_puts : is_import modules puts ≡ true
unfolding is_import enum_import_names
is_puts = refl

-- A demangler that gives a name with its parameters.
abbrev with_params : Bytes → Bytes
with_params name = name ++ codes "(char const*)"

get_name-IsBase_example :
    (pname : Bytes) × (base : Bytes) × IsCleaned refuse with_params puts pname
    × IsBase refuse with_params pname base
    × (get_name refuse with_params modules puts
        ≡ (if listed (bare_name puts.name) modules then codes "__imp_" ++ base else base))
get_name-IsBase_example = get_name-IsBase refuse with_params modules puts

abbrev int_main : Bytes
int_main = codes "int main(int, char **)"

named_main : function_name int_main ≡ some (codes "main")
unfolding function_name split
named_main = refl
