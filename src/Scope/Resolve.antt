-- ===== src/Scope/Resolve.antt =====
-- The lookups of `YagiScope`: what the proxy has wins, and what it lacks is read from IDA's
-- database and added to it.
pub mod Laws
pub mod Cached
use yagi.Common.{ℕ, Bool, true, false, ◌++◌, Option, none, some, Bytes, codes, if◌then◌else◌}
use yagi.Base.Hex.{to_hex}
use yagi.Symbol.Info.{Kind}
use yagi.Scope.Proxy.{Address, SymbolInfo, ScopeInternal}

-- A call returns a value, or the exception of the type manager leaves it.
pub data Outcome (A : Type 0) : Type 0 where
  returns : A → Outcome A
  throws : Outcome A

-- The type at an address: the factory has none, or `findByTypeInfo` builds it or throws.
pub data Built : Type 0 where
  no_type type raises : Built

-- `getSymbolDatabase().find`, `findInjection`, and the type factory with the type manager.
pub record Archi : Type 0 where
  pub find : ℕ → Option SymbolInfo
  pub find_injection : Bytes → Option Bytes
  pub build_type : ℕ → Built

module _ (proxy : ScopeInternal) (archi : Archi) where
  open proxy use {S, Symbol, Entry, Funcdata}

  unfoldable pub inject : Funcdata → S → S
  inject f s = elim (archi.find_injection (proxy.function_name f)) [
    | none ↦ s
    | some injection ↦ proxy.set_inject f injection s
  ]

  -- `update` may leave the function by its exception, after the function was added.
  unfoldable pub add_found : Address → SymbolInfo → S → Outcome (Option Funcdata) × S
  unfolding inject
  add_found addr info s =
      let (sym, s1) = proxy.add_function addr info.name s in
      let f = proxy.get_function sym in
      let (done, s2) = proxy.update f (inject f s1) in
      if done then (returns (some f), s2) else (throws, s2)

  pub find_function : Address → S → Outcome (Option Funcdata) × S
  unfolding add_found
  find_function addr s = elim (proxy.find_function addr s) [
    | some f ↦ (returns (some f), s)
    | none ↦ elim (archi.find addr.offset) [
      | none ↦ (returns none, s)
      | some sym ↦ add_found addr sym s
    ]
  ]

  -- The exception of `update` is caught here. The proxy is not asked first.
  pub resolve_external_ref_function : Address → S → Option Funcdata × S
  resolve_external_ref_function ref s = elim (archi.find ref.offset) [
    | none ↦ (none, s)
    | some sym ↦
        let (added, s1) = proxy.add_function ref sym.name s in
        let f = proxy.get_function added in let (done, s2) = proxy.update f s1 in (some f, s2)
  ]

  pub find_external_ref : Address → S → Option Symbol × S
  find_external_ref addr s = elim (proxy.find_external_ref addr s) [
    | some sym ↦ (some sym, s)
    | none ↦ elim (archi.find addr.offset) [
      | none ↦ (none, s)
      | some info ↦
          if info.is_import
          then (let (sym, s1) = proxy.add_external_ref addr info.name s in (some sym, s1))
          else (none, s)
    ]
  ]

  pub find_code_label : Address → S → Option Symbol × S
  find_code_label addr s = elim (proxy.find_code_label addr s) [
    | some sym ↦ (some sym, s)
    | none ↦ elim (archi.find addr.offset) [
      | none ↦ (none, s)
      | some info ↦
          if info.is_label
          then (let (sym, s1) = proxy.add_code_label addr info.name s in (some sym, s1))
          else (none, s)
    ]
  ]

  -- The symbol of another kind has the type at its address, or an unknown one of the size.
  unfoldable pub add_other : ℕ → ℕ → Bytes → S → Outcome (Symbol × S)
  add_other offset size name s = elim (archi.build_type offset) [
    | no_type ↦ returns (proxy.add_unknown name size s)
    | type ↦ returns (proxy.add_typed name offset s)
    | raises ↦ throws
  ]

  -- The switch on the kind of the symbol.
  unfoldable pub add_container : Address → ℕ → SymbolInfo → S → Outcome (Symbol × S)
  unfolding add_other
  add_container addr size info s = elim info.kind [
    | Kind.function ↦ returns (proxy.add_function addr info.name s)
    | Kind.import ↦ returns (proxy.add_external_ref addr info.name s)
    | Kind.label ↦ returns (proxy.add_code_label addr info.name s)
    | Kind.other ↦ add_other addr.offset size info.name s
  ]

  unfoldable pub mark_and_map : Address → Address → Bool → Symbol → S → Entry × S
  mark_and_map addr usepoint read_only sym s =
      proxy.add_map_point sym addr usepoint (if read_only then proxy.set_read_only sym s else s)

  unfoldable pub map_container : Address → ℕ → Address → SymbolInfo → S → Outcome (Option Entry) × S
  unfolding add_container mark_and_map
  map_container addr size usepoint info s = elim (add_container addr size info s) [
    | throws ↦ (throws, s)
    | returns (sym, s1) ↦
        let (entry, s2) = mark_and_map addr usepoint info.is_read_only sym s1 in
        (returns (some entry), s2)
  ]

  unfoldable pub find_container : Address → ℕ → Address → S → Outcome (Option Entry) × S
  unfolding map_container
  find_container addr size usepoint s = elim (proxy.find_container addr size usepoint s) [
    | some entry ↦ (returns (some entry), s)
    | none ↦
        if addr.in_code_space
        then (elim (archi.find addr.offset) [
          | none ↦ (returns none, s)
          | some info ↦ map_container addr size usepoint info s
        ])
        else (returns none, s)
  ]

pub build_variable_name : Address → Bytes
build_variable_name addr = codes "unk_" ++ to_hex addr.offset
