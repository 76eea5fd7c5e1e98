-- ===== src/Symbol/Info.antt =====
-- `IdaSymbolInfo` of yagi/src/idasymbol.cc and `SymbolInfo::getType` of yagi/src/symbolinfo.cc.
pub mod Imports
use yagi.Common.{
  ℕ, ◌+◌, ◌-◌, ◌%◌, ◌^◌, ◌<◌, ◌≡◌, Bool, true, false, ◌&&◌, ◌||◌, not, List, [], ◌∷◌, ◌++◌, Option,
  none, some, Bytes, codes, bytes_eq, find_byte, take, drop, length, ltb, ◌==◌, if◌then◌else◌,
}
use yagi.Print.Emit.{import_prefix}

-- `SymbolInfo::Type`.
pub data Kind : Type 0 where
  function label import other : Kind

-- What IDA knows of the symbol at an address.
pub record IdaSymbol : Type 0 where
  pub ea : ℕ
  pub name : Bytes
  -- `get_func(ea)`: the first address and the end of the function around it.
  pub func : Option (ℕ × ℕ)
  -- The cross references to it, in order: whether each is from code, and its type.
  pub xrefs : List (Bool × ℕ)
  -- The name of its segment, if it has one, and the permissions.
  pub segment : Option Bytes
  pub perm : ℕ

-- The import modules: the names that `enum_import_names` hands over, a null one for an import by
-- ordinal. `none` is a module for which it fails.
abbrev pub ImportModules : Type 0
ImportModules = List (Option (List (Option Bytes)))

pub is_function : IdaSymbol → Bool
is_function s = elim s.func [ none ↦ false | some (start_ea, end_ea) ↦ start_ea == s.ea ]

-- The loop stops at the first reference from data; `near_jump` is IDA's `fl_JN`.
pub has_jump : ℕ → List (Bool × ℕ) → Bool
has_jump near_jump [] = false
has_jump near_jump ((false, kind) ∷ xrefs) = false
has_jump near_jump ((true, kind) ∷ xrefs) =
    if kind == near_jump then true else has_jump near_jump xrefs

pub is_label : ℕ → IdaSymbol → Bool
unfolding has_jump
is_label near_jump s = has_jump near_jump s.xrefs

-- The callback answers 0 to stop at the name and 1 to go on; `enum_import_names` returns 0 if it
-- was stopped and 1 if not, and -1 (here 2) if it failed.
pub enum_names : Bytes → List (Option Bytes) → ℕ
enum_names name [] = 1
enum_names name (none ∷ names) = enum_names name names
enum_names name (some n ∷ names) = if bytes_eq name n then 0 else enum_names name names

unfoldable pub enum_import_names : Bytes → Option (List (Option Bytes)) → ℕ
unfolding enum_names
enum_import_names name none = 2
enum_import_names name (some names) = enum_names name names

pub any_module : Bytes → ImportModules → Bool
any_module name [] = false
any_module name (m ∷ ms) =
    let found = enum_import_names name m in
    if not (found == 2) && not (found == 1) then true else any_module name ms

-- The name without the mark of an import, if it is longer than the mark.
pub bare_name : Bytes → Bytes
bare_name name =
    if ltb 6 (length name) && bytes_eq (take 6 name) import_prefix then drop 6 name else name

unfoldable pub is_import : ImportModules → IdaSymbol → Bool
unfolding any_module bare_name
is_import modules s = any_module (bare_name s.name) modules

-- `SEGPERM_READ` is 4 and `SEGPERM_EXEC` is 1.
pub is_read_only : IdaSymbol → Bool
is_read_only s =
    let by_permission = s.perm == 4 || s.perm == 5 in
    elim s.segment [
      | none ↦ by_permission
      | some segment ↦ if bytes_eq segment (codes ".data") then true else by_permission
    ]

-- `getFunctionSize`; `none` is the exception `SymbolIsNotAFunction`.
pub function_size : IdaSymbol → Option ℕ
function_size s = elim s.func [
  | none ↦ none
  | some (start_ea, end_ea) ↦
      if start_ea == s.ea then some ((end_ea + 2 ^ 64 - start_ea) % 2 ^ 64) else none
]

pub get_type : ℕ → ImportModules → IdaSymbol → Kind
get_type near_jump modules s =
    if is_function s
    then Kind.function
    else if is_label near_jump s
    then Kind.label
    else if is_import modules s
    then Kind.import
    else Kind.other

-- `cleanup_name` and `demangle_name` are IDA's; the first may refuse, the second gives an empty
-- name for what is not mangled.
module _ (cleanup_name : ℕ → Bytes → Option Bytes) (demangle_name : Bytes → Bytes) where
  pub cleaned : IdaSymbol → Bytes
  cleaned s =
      if bytes_eq (take 4 s.name) (codes "sub_")
      then s.name
      else (elim (cleanup_name s.ea s.name) [ none ↦ s.name | some pname ↦ pname ])

  -- The demangled name without its parameters.
  pub demangled : Bytes → Bytes
  demangled pname = elim (demangle_name pname) [
    | [] ↦ pname
    | c ∷ name ↦ elim (find_byte b'(' (c ∷ name)) [ none ↦ c ∷ name | some pp ↦ take pp (c ∷ name) ]
  ]

  pub get_name : ImportModules → IdaSymbol → Bytes
  get_name modules s =
      let pname = demangled (cleaned s) in
      if is_import modules s then import_prefix ++ pname else pname
