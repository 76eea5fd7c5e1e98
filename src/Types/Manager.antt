-- ===== src/Types/Manager.antt =====
-- `TypeManager` of yagi/src/typemanager.cc: Ghidra's types, built from IDA's. A computation takes
-- the state of the factory. It has a value, it calls `begin` on an empty map of models, or its fuel
-- is used up; the exception `UnknownTypeError` is caught where it is thrown.
pub mod Monad
pub mod Ends
pub mod Fuel
pub mod Find
pub mod Shapes
pub mod Terminates
pub mod Named
pub mod Update
use yagi.Common.{
  ℕ, zero, suc, ◌-◌, ◌%◌, ◌^◌, Bool, true, false, List, [], ◌∷◌, Option, none, some, Bytes, ◌==◌,
  if◌then◌else◌,
}
use yagi.Types.Factory.{
  TypeFactory, Glb, Metatype, type_bool, type_int, type_float, type_void, type_unknown,
}
use yagi.Types.Tinfo.{
  Tinfo, is_unicode, to_func, to_struct, to_ptr, to_array, get_func_prototype, func_calling_conv,
  get_fields, build_named, get_func_param_name, build_at,
}
use yagi.Types.Convention.{choose_cc}
use yagi.Types.Manager.Monad.{
  Result, ok, no_model, out_of_fuel, M, return, ◌>>=◌, ◌>>◌, step, change, for_each,
}

-- `size_t` of a type without a size.
abbrev pub bad_size : ℕ
bad_size = 2 ^ 64 - 1

-- A number passed as an `int4`.
abbrev pub int4 : ℕ → ℕ
int4 n = n % 2 ^ 32

-- What the tests of a type find it to be.
pub data Shape : Type 0 where
  ptr bool unicode char int float struct void func array unknown : Shape

abbrev pub has_value {ℓ} : {A : Type ℓ} → Option A → Bool
has_value none = false
has_value (some x) = true

module _ (ida : Tinfo) where
  -- The tests of `parseTypeInfo`, in its order.
  unfoldable pub shape_of : ida.T → Shape
  shape_of t =
      if has_value (to_ptr ida t)
      then Shape.ptr
      else if ida.is_bool t
      then Shape.bool
      else if is_unicode ida t
      then Shape.unicode
      else if ida.is_char t
      then Shape.char
      else if ida.is_int t
      then Shape.int
      else if ida.is_float t
      then Shape.float
      else if has_value (to_struct ida t)
      then Shape.struct
      else if ida.is_void t
      then Shape.void
      else if has_value (to_func ida t)
      then Shape.func
      else if has_value (to_array ida t)
      then Shape.array
      else Shape.unknown

module _ (ida : Tinfo) (factory : TypeFactory) (glb : Glb) where
  open ida use {T}
  open factory use {S, Datatype}

  -- `new TypeBase` and its name.
  pub named_base : ℕ → Metatype → Bytes → M S Datatype
  named_base size meta name =
      let ct = factory.new_base (int4 size) meta name in
      do change (factory.set_name ct name); return ct

  pub choose_model : Option Bytes → M S Bytes
  choose_model none s = (no_model, s)
  choose_model (some cc_name) s = (ok cc_name, s)

  -- The body of the functions below calls `find`, which stands for `findByTypeInfo`.
  module _ (find : T → M S Datatype) where
    -- The prototype is the result and the parameters, or nothing.
    pub prototype : List T → M S (Datatype × List Datatype)
    prototype [] = do ret ← step factory.get_type_void; return (ret, [])
    prototype (result ∷ params) = do
      start ← step factory.get_type_void
      ret ← find result
      types ← for_each find params
      return (ret, types)

    unfoldable pub parse_func : T → M S Datatype
    unfolding prototype choose_model
    parse_func t = do
      types ← prototype (get_func_prototype ida t)
      cc_name ← choose_model (choose_cc glb.models glb.default_cc (func_calling_conv ida t))
      ct ← step (factory.get_type_code cc_name types.0 types.1 (ida.is_vararg_cc t))
      change (factory.set_name ct (ida.print t))
      return ct

    pub parse_ptr : T → M S Datatype
    parse_ptr t = do
      pointed ← find (ida.get_pointed_object t)
      ct ← step (factory.get_type_pointer (int4 glb.addr_size) pointed glb.word_size)
      change (factory.set_name ct (ida.print t))
      return ct

    pub parse_field : ℕ × Bytes × T → M S (ℕ × Bytes × Datatype)
    parse_field (offset, name, type) = do d ← find type; return (int4 offset, name, d)

    pub parse_struct : T → M S Datatype
    unfolding parse_field
    parse_struct t = do
      ct ← step (factory.get_type_struct (ida.print t))
      fields ← for_each parse_field (get_fields ida t)
      change (factory.set_fields fields ct)
      return ct

    -- Is the size 0? Then the array is its element.
    pub array_of : Bool → T → M S Datatype
    array_of true t = find (ida.get_array_element t)
    array_of false t = do
      element ← find (ida.get_array_element t)
      ct ← step (factory.get_type_array (int4 (ida.get_size t)) element)
      change (factory.set_name ct (ida.print t))
      return ct

    pub parse_array : T → M S Datatype
    unfolding array_of
    parse_array t = array_of (ida.get_size t == 0) t

    pub parse_void : T → M S Datatype
    parse_void t =
        let size = if ida.get_size t == 0 then glb.addr_size else ida.get_size t in
        named_base size type_void (ida.print t)

    pub parse_unknown : T → M S Datatype
    parse_unknown t =
        let size = if ida.get_size t == bad_size then glb.addr_size else ida.get_size t in
        named_base size type_unknown (ida.print t)

    pub parse_unicode : T → M S Datatype
    parse_unicode t =
        let ct = factory.new_unicode (ida.print t) (int4 (ida.get_size t)) in
        do change (factory.set_name ct (ida.print t)); return ct

    pub parse_char : T → M S Datatype
    parse_char t =
        let ct = factory.new_char (ida.print t) in
        do change (factory.set_name ct (ida.print t)); return ct

    pub parse_as : Shape → T → M S Datatype
    unfolding parse_ptr parse_unicode parse_char parse_struct parse_void parse_func parse_array
        parse_unknown named_base
    parse_as Shape.ptr t = parse_ptr t
    parse_as Shape.bool t = named_base (ida.get_size t) type_bool (ida.print t)
    parse_as Shape.unicode t = parse_unicode t
    parse_as Shape.char t = parse_char t
    parse_as Shape.int t = named_base (ida.get_size t) type_int (ida.print t)
    parse_as Shape.float t = named_base (ida.get_size t) type_float (ida.print t)
    parse_as Shape.struct t = parse_struct t
    parse_as Shape.void t = parse_void t
    parse_as Shape.func t = parse_func t
    parse_as Shape.array t = parse_array t
    parse_as Shape.unknown t = parse_unknown t

  -- `findById`; `none` is the exception `UnknownTypeError`.
  pub find_by_id : (T → M S Datatype) → Bytes → S → Option (Result Datatype × S)
  find_by_id parse n s = elim (factory.find_by_id_local n s) [
    | some cached ↦ some (ok cached, s)
    | none ↦ elim (build_named ida n) [ none ↦ none | some t ↦ some (parse t s) ]
  ]

  unfoldable pub find_by_type_info : (T → M S Datatype) → T → M S Datatype
  unfolding find_by_id
  find_by_type_info parse t s = elim (find_by_id parse (ida.print t) s) [
    | some found ↦ found
    | none ↦ parse t s
  ]

  -- `parseTypeInfo`. The fuel bounds the depth of the calls.
  unfoldable pub parse_type_info : ℕ → T → M S Datatype
  unfolding parse_as find_by_type_info
  parse_type_info zero t s = (out_of_fuel, s)
  parse_type_info (suc fuel) t s =
      parse_as (find_by_type_info (parse_type_info fuel)) (shape_of ida t) t s
