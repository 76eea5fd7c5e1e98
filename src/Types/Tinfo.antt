-- ===== src/Types/Tinfo.antt =====
-- The types of yagi/src/idatype.cc, which read IDA's `tinfo_t`. That class is code of the IDA SDK:
-- a record of the functions that are called.
pub mod ParamNames
use yagi.Common.{
  ℕ, ◌+◌, ◌-◌, ◌/◌, ◌%◌, ◌^◌, zero, suc, Bool, true, false, ◌&&◌, ◌||◌, List, [], ◌∷◌, ◌++◌, Option,
  none, some, Bytes, codes, bytes_eq, ltb, leb, ◌==◌, if◌then◌else◌, take, length, map,
}
use yagi.Types.Convention.{FuncCc, get_calling_conv}

-- A member of a structure: its offset in bits, its name and its type.
pub record UdtMember (T : Type 0) : Type 0 where
  pub offset : ℕ
  pub name : Bytes
  pub type : T

-- `func_type_data_t`: the type of the result, the name and type of each argument, the convention.
pub record FuncDetails (T : Type 0) : Type 0 where
  pub rettype : T
  pub args : List (Bytes × T)
  pub cc : FuncCc

pub record Tinfo : Type 1 where
  pub T : Type 0
  -- The text of the type; it is its name.
  pub print : T → Bytes
  pub get_size : T → ℕ
  pub is_ptr : T → Bool
  pub is_bool : T → Bool
  pub is_char : T → Bool
  pub is_int : T → Bool
  pub is_float : T → Bool
  pub is_struct : T → Bool
  pub is_void : T → Bool
  pub is_func : T → Bool
  pub is_array : T → Bool
  pub is_vararg_cc : T → Bool
  pub get_pointed_object : T → T
  pub get_array_element : T → T
  pub get_udt_details : T → List (UdtMember T)
  pub get_func_details : T → Option (FuncDetails T)
  pub get_named_type : Bytes → Option T
  pub get_tinfo : ℕ → Option T
  pub guess_tinfo : ℕ → Option T

-- `::tolower` of the C locale.
pub to_lower : ℕ → ℕ
to_lower c = if leb b'A' c && leb c b'Z' then c + 32 else c

-- `find(text) != npos`.
pub contains : Bytes → Bytes → Bool
contains text [] = bytes_eq text []
contains text (c ∷ s) = bytes_eq (take (length text) (c ∷ s)) text || contains text s

-- `ss << index` for a 16-bit number, in the five digits it has at most.
pub decimal : ℕ → Bytes
decimal n =
    let d : ℕ → ℕ = λ k. b'0' + (n / k) % 10 in
    if ltb n 10
    then d 1 ∷ []
    else if ltb n 100
    then d 10 ∷ d 1 ∷ []
    else if ltb n 1000
    then d 100 ∷ d 10 ∷ d 1 ∷ []
    else if ltb n 10000
    then d 1000 ∷ d 100 ∷ d 10 ∷ d 1 ∷ []
    else d 10000 ∷ d 1000 ∷ d 100 ∷ d 10 ∷ d 1 ∷ []

-- `index` is the one before the increment; it has 16 bits.
unfoldable pub param_name : ℕ → Bytes → Bytes
unfolding decimal
param_name index [] = b'a' ∷ decimal ((index + 1) % 2 ^ 16)
param_name index (c ∷ name) = c ∷ name

module _ {T : Type 0} where
  unfoldable pub param_names_from : ℕ → List (Bytes × T) → List Bytes
  param_names_from index [] = []
  param_names_from index ((name, type) ∷ args) =
      param_name index name ∷ param_names_from ((index + 1) % 2 ^ 16) args

  abbrev pub arg_types : List (Bytes × T) → List T
  arg_types [] = []
  arg_types ((name, type) ∷ args) = type ∷ arg_types args

module _ (ida : Tinfo) where
  open ida use {T}

  unfoldable pub is_unicode : T → Bool
  unfolding contains to_lower
  is_unicode t =
      let name = map to_lower (ida.print t) in
      ida.is_int t && (contains (codes "wchar") name || contains (codes "wstr") name)

  -- A type is handed on as itself if the test of its kind holds.
  abbrev pub if_kind : Bool → T → Option T
  if_kind true t = some t
  if_kind false t = none

  unfoldable pub to_func : T → Option T
  to_func t = if_kind (ida.is_func t) t

  unfoldable pub to_struct : T → Option T
  to_struct t = if_kind (ida.is_struct t) t

  unfoldable pub to_ptr : T → Option T
  to_ptr t = if_kind (ida.is_ptr t) t

  unfoldable pub to_array : T → Option T
  to_array t = if_kind (ida.is_array t) t

  prototype_of : Option (FuncDetails T) → List T
  prototype_of none = []
  prototype_of (some f) = f.rettype ∷ arg_types f.args

  -- `getFuncPrototype`: the result and the parameters, or nothing.
  unfoldable pub get_func_prototype : T → List T
  unfolding prototype_of
  get_func_prototype t = prototype_of (ida.get_func_details t)

  names_of : Bool → Option (FuncDetails T) → List Bytes
  unfolding param_names_from
  names_of false details = []
  names_of true none = []
  names_of true (some f) = param_names_from 0 f.args

  unfoldable pub get_func_param_name : T → List Bytes
  unfolding names_of
  get_func_param_name t = names_of (ida.is_func t) (ida.get_func_details t)

  unfoldable pub func_calling_conv : T → Option Bytes
  func_calling_conv t = elim (ida.get_func_details t) [
    | none ↦ get_calling_conv none
    | some f ↦ get_calling_conv (some f.cc)
  ]

  -- `arg.offset / 8`: bits to bytes.
  field_of : UdtMember T → ℕ × Bytes × T
  field_of m = (m.offset / 8, m.name, m.type)

  unfoldable pub get_fields : T → List (ℕ × Bytes × T)
  unfolding field_of
  get_fields t = map field_of (ida.get_udt_details t)

  -- `build(name)` and `build(ea)`: the type IDA has, or else the one it guesses.
  unfoldable pub build_named : Bytes → Option T
  build_named name = ida.get_named_type name

  unfoldable pub build_at : ℕ → Option T
  build_at ea = elim (ida.get_tinfo ea) [ some t ↦ some t | none ↦ ida.guess_tinfo ea ]
