-- ===== src/Syscall/Calls.antt =====
-- What one `addSyscall` of yagi/src/yagiaction.cc is given: a name, the number of the
-- helper, its return type and its parameters. A type is what is asked of the type factory.
use Prim.Native.String.{String}
use yagi.Common.{ℕ, Bool, List}

-- Ghidra's metatypes that the table asks for.
pub data Metatype : Type 0 where
  type_int : Metatype
  type_uint : Metatype

-- `getBase(size, meta)`, `getTypePointer(size, pointed, wordsize)` and `getTypeVoid()`.
pub data Datatype : Type 0 where
  get_base : ℕ → Metatype → Datatype
  get_type_pointer : ℕ → Datatype → ℕ → Datatype
  get_type_void : Datatype

abbrev pub int : Datatype
int = get_base 8 type_int

abbrev pub ptr : Datatype
ptr = get_type_pointer 8 get_type_void 8

abbrev pub str : Datatype
str = get_type_pointer 8 (get_base 1 type_int) 8

abbrev pub u16 : Datatype
u16 = get_base 2 type_uint

abbrev pub u32 : Datatype
u32 = get_base 4 type_uint

abbrev pub u64 : Datatype
u64 = get_base 8 type_uint

abbrev pub s32 : Datatype
s32 = get_base 4 type_int

abbrev pub s64 : Datatype
s64 = get_base 8 type_int

abbrev pub void : Datatype
void = get_type_void

-- The arguments of `addSyscall` after the architecture, in its order.
pub data Syscall : Type 0 where
  syscall : String → ℕ → Datatype → List (String × Datatype) → Bool → Syscall

abbrev pub number : Syscall → ℕ
number (syscall name n ret params dots) = n
