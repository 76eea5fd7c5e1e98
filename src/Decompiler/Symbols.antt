-- ===== src/Decompiler/Symbols.antt =====
-- `findVarSymbols`, `findFunctionSymbols` and `findConstantSymbols` of
-- yagi/src/ghidradecompiler.cc: the map from the words of the text to memory locations. What
-- Ghidra knows of a function is read from lists, in the order its iterators have.
pub mod Found
use yagi.Common.{
  ℕ, Bool, true, false, ◌&&◌, List, [], ◌∷◌, ◌++◌, Option, none, some, Bytes, codes, bytes_eq, ◌==◌,
  if◌then◌else◌,
}
use yagi.Common.Maps.{emplace}
use yagi.Symbol.Location.{MemoryLocation}
use yagi.Print.Emit.{strip_import}

abbrev pub Symbols : Type 0
Symbols = List (Bytes × MemoryLocation)

-- An address: the name of its space, its offset and its size.
pub record Address : Type 0 where
  pub space_name : Bytes
  pub offset : ℕ
  pub addr_size : ℕ

abbrev pub same_address : Address → Address → Bool
same_address a b = bytes_eq a.space_name b.space_name && a.offset == b.offset

-- The varnode that names a high variable, with the address of the operation that defines it.
pub record NameRepresentative : Type 0 where
  pub addr : Address
  pub def : Option ℕ

-- A varnode with a symbol and a name representative, one without, or one whose accessors raise
-- `LowlevelError`, which the loop catches.
pub data Varnode : Type 0 where
  symbol : Address → Bytes → NameRepresentative → Varnode
  no_symbol : Varnode
  lowlevel_error : Varnode

-- An input of an operation: whether it is a constant, and its address.
abbrev pub Input : Type 0
Input = Bool × Address

-- An operation: its address and its inputs.
pub record PcodeOp : Type 0 where
  pub addr : ℕ
  pub inputs : List Input

-- The call of a function; the entry is unknown where its space is null.
pub record FuncCallSpecs : Type 0 where
  pub name : Bytes
  pub entry : Option Address

pub record Funcdata : Type 0 where
  pub name : Bytes
  pub addr : Address
  pub varnodes : List Varnode
  pub ops : List PcodeOp
  pub calls : List FuncCallSpecs

abbrev location : Address → List ℕ → MemoryLocation
location a pcs = record {
  space_name = a.space_name;
  offset = a.offset;
  addr_size = a.addr_size;
  pc = pcs;
}

abbrev pub ram : Address → MemoryLocation
ram a = record { space_name = codes "ram"; offset = a.offset; addr_size = a.addr_size; pc = [] }

-- The address of the operation, once for each input at the address.
pub uses_in : Address → ℕ → List Input → List ℕ
uses_in a at [] = []
uses_in a at ((is_constant, input) ∷ inputs) =
    let rest = uses_in a at inputs in if same_address a input then at ∷ rest else rest

pub uses : Address → List PcodeOp → List ℕ
uses a [] = []
uses a (op ∷ ops) = uses_in a op.addr op.inputs ++ uses a ops

-- The definition of the variable, or each use of the varnode where it has none.
pub definitions : List PcodeOp → Address → Option ℕ → List ℕ
definitions ops a (some def) = def ∷ []
definitions ops a none = uses a ops

pub find_var_symbols : List PcodeOp → List Varnode → Symbols → Symbols
find_var_symbols ops [] symbols = symbols
find_var_symbols ops (no_symbol ∷ rest) symbols = find_var_symbols ops rest symbols
find_var_symbols ops (lowlevel_error ∷ rest) symbols = find_var_symbols ops rest symbols
find_var_symbols ops (symbol a name repr ∷ rest) symbols =
    find_var_symbols ops rest
      (emplace name (location repr.addr (definitions ops a repr.def)) symbols)

pub find_call_symbols : List FuncCallSpecs → Symbols → Symbols
find_call_symbols [] symbols = symbols
find_call_symbols (call ∷ rest) symbols = elim call.entry [
  | none ↦ find_call_symbols rest symbols
  | some entry ↦ find_call_symbols rest (emplace (strip_import call.name) (ram entry) symbols)
]

pub find_function_symbols : Funcdata → Symbols → Symbols
find_function_symbols func symbols =
    find_call_symbols func.calls (emplace func.name (ram func.addr) symbols)

-- The loops over the operations and their inputs. The location of a constant is built and then
-- dropped: the map is handed on as it is.
pub find_constant_inputs : ℕ → List Input → Symbols → Symbols
find_constant_inputs at [] symbols = symbols
find_constant_inputs at ((true, input) ∷ inputs) symbols =
    let loc = location input (at ∷ []) in find_constant_inputs at inputs symbols
find_constant_inputs at ((false, input) ∷ inputs) symbols = find_constant_inputs at inputs symbols

pub find_constant_symbols : List PcodeOp → Symbols → Symbols
find_constant_symbols [] symbols = symbols
find_constant_symbols (op ∷ ops) symbols =
    find_constant_symbols ops (find_constant_inputs op.addr op.inputs symbols)

-- As `decompile` calls them, from an empty map.
pub find_symbols : Funcdata → Symbols
find_symbols func =
    find_constant_symbols func.ops
      (find_function_symbols func (find_var_symbols func.ops func.varnodes []))
