-- ===== src/Types/Manager/Update.antt =====
-- `TypeManager::update` of yagi/src/typemanager.cc: a function gets the type that IDA has for it.
pub mod Ends
use yagi.Common.{
  ℕ, ◌≡◌, Bool, true, false, List, Option, none, some, Bytes, ◌==◌, if◌then◌else◌, length,
}
use yagi.Types.Factory.{TypeFactory, Glb}
use yagi.Types.Tinfo.{Tinfo, to_ptr, to_func, build_at, get_func_param_name}
use yagi.Types.Manager.{parse_func, find_by_type_info, parse_type_info}
use yagi.Types.Manager.Monad.{Result, ok, M, return, ◌>>=◌, step}

-- Ghidra's `PrototypePieces` of a code type, with the names of the parameters and its other fields.
pub record PrototypePieces (factory : TypeFactory) : Type 1 where
  pub P : Type 0
  pub get_pieces : factory.Datatype → factory.S → P
  pub innames : P → List Bytes
  pub with_innames : List Bytes → P → P
  pub Others : Type 0
  pub others : P → Others
  pub innames-with_innames : (names : List Bytes) (p : P) → innames (with_innames names p) ≡ names
  pub others-with_innames : (names : List Bytes) (p : P) → others (with_innames names p) ≡ others p

-- What happens to the function: no type at its address, the message that it is no function, no
-- change, or new pieces of its prototype.
pub data Updated (P : Type 0) : Type 0 where
  no_type not_func unchanged : Updated P
  set_pieces : P → Updated P

module _ (ida : Tinfo) (factory : TypeFactory) (glb : Glb) (proto : PrototypePieces factory) where
  open ida use {T}
  open factory use {S}
  open proto use {P}

  pub object_of : Option T → T → T
  object_of none t = t
  object_of (some ptr) t = ida.get_pointed_object ptr

  pub renamed : List Bytes → P → Updated P
  renamed names pieces =
      if length names == length (proto.innames pieces)
      then set_pieces (proto.with_innames names pieces)
      else unchanged

  -- What follows `parseFunc`.
  pub named : T → factory.Datatype → M S (Updated P)
  unfolding renamed
  named f type = do
    pieces ← step (λ s. (proto.get_pieces type s, s))
    return (renamed (get_func_param_name ida f) pieces)

  pub update_func : ℕ → Option T → M S (Updated P)
  unfolding named
  update_func fuel none = return not_func
  update_func fuel (some f) = do
    type ←
        parse_func ida factory glb
          (find_by_type_info ida factory glb (parse_type_info ida factory glb fuel)) f
    named f type

  pub update_type : ℕ → Option T → M S (Updated P)
  unfolding object_of
  update_type fuel none = return no_type
  update_type fuel (some t) = update_func fuel (to_func ida (object_of (to_ptr ida t) t))

  unfoldable pub update : ℕ → ℕ → M S (Updated P)
  unfolding update_type update_func
  update fuel ea = update_type fuel (build_at ida ea)
