-- ===== src/Architecture/Guard.antt =====
-- `RuleWindowsControlFlowGuard` of yagi/src/yagirule.cc: an indirect call through the function
-- that checks it becomes a call of what the register RAX holds.
use yagi.Common.{
  ℕ, ◌≡◌, refl, ap, ◌∙◌, Bool, true, false, List, [], ◌∷◌, Option, none, some, Bytes, codes,
  bytes_eq, if◌then◌else◌,
}
use yagi.Symbol.Info.{Kind}
use yagi.Scope.Proxy.{Address, SymbolInfo, ScopeInternal}
use yagi.Scope.Resolve.Laws.{is_answer, can_add, find_container-is_answer}
use yagi.Scope.Resolve.{
  Outcome, returns, throws, Archi, Built, no_type, type, raises, add_other, add_container,
  mark_and_map, map_container, find_container,
}

-- What the rule makes Ghidra do: an input of the operation becomes a new varnode of a size at the
-- address of a register, and the text of the function gets a warning.
pub data Patch : Type 0 where
  op_set_input : ℕ → ℕ → ℕ → Patch
  warning_header : Bytes → Patch

-- The name of an entry's symbol; `none` is a null pointer. It is the name that the symbol was
-- added with.
pub record EntryNames (proxy : ScopeInternal) : Type 0 where
  pub symbol_name : proxy.Symbol → Bytes
  pub entry_name : proxy.Entry → Option Bytes
  pub name-add_function :
      (a : Address) (name : Bytes) (s : proxy.S)
      → symbol_name (proxy.add_function a name s).0 ≡ name
  pub name-add_external_ref :
      (a : Address) (name : Bytes) (s : proxy.S)
      → symbol_name (proxy.add_external_ref a name s).0 ≡ name
  pub name-add_code_label :
      (a : Address) (name : Bytes) (s : proxy.S)
      → symbol_name (proxy.add_code_label a name s).0 ≡ name
  pub name-add_typed :
      (name : Bytes) (offset : ℕ) (s : proxy.S)
      → symbol_name (proxy.add_typed name offset s).0 ≡ name
  pub name-add_unknown :
      (name : Bytes) (size : ℕ) (s : proxy.S) → symbol_name (proxy.add_unknown name size s).0 ≡ name
  pub name-add_map_point :
      (sym : proxy.Symbol) (a usepoint : Address) (s : proxy.S)
      → entry_name (proxy.add_map_point sym a usepoint s).0 ≡ some (symbol_name sym)

-- `get_register` is Ghidra's translator: the address of a register of the processor, or an exception
-- where it has none of the name, as a 32-bit x86 has no RAX.
module _ (proxy : ScopeInternal) (archi : Archi) (names : EntryNames proxy)
    (get_register : Bytes → Option ℕ) where
  open proxy use {S, Symbol, Entry}

  abbrev pub patches : ℕ → ℕ → List Patch
  patches addr_size rax_addr =
      op_set_input addr_size rax_addr 0
      ∷ warning_header (codes "Yagi : Control Flow Guard patching")
      ∷ []

  pub patch_rax : ℕ → Option ℕ → Outcome (List Patch)
  patch_rax addr_size none = throws
  patch_rax addr_size (some rax_addr) = returns (patches addr_size rax_addr)

  pub patch_named : Bytes → ℕ → Option Bytes → Outcome (List Patch)
  unfolding patch_rax
  patch_named cfg_wrapper_name addr_size none = returns []
  patch_named cfg_wrapper_name addr_size (some name) =
      if bytes_eq name cfg_wrapper_name
      then patch_rax addr_size (get_register (codes "RAX"))
      else returns []

  pub patch_entry : Bytes → ℕ → Outcome (Option Entry) → Outcome (List Patch)
  unfolding patch_named
  patch_entry cfg_wrapper_name addr_size throws = throws
  patch_entry cfg_wrapper_name addr_size (returns none) = returns []
  patch_entry cfg_wrapper_name addr_size (returns (some entry)) =
      patch_named cfg_wrapper_name addr_size (names.entry_name entry)

  -- `applyOp`, for an operation with the address of its input 0.
  pub apply_op : Bytes → ℕ → Address → Address → S → Outcome (List Patch) × S
  unfolding patch_entry
  apply_op cfg_wrapper_name addr_size target addr s =
      let (sym, s') = find_container proxy archi target addr_size addr s in
      (patch_entry cfg_wrapper_name addr_size sym, s')

  -- What the rule does where the symbol has the name of the wrapper, by the address of RAX.
  abbrev pub Patched : Bool → ℕ → Option ℕ → Outcome (List Patch) → Type 0
  Patched false addr_size rax o = o ≡ returns []
  Patched true addr_size none o = o ≡ throws
  Patched true addr_size (some rax_addr) o =
      o
      ≡ returns (
          op_set_input addr_size rax_addr 0
          ∷ warning_header (codes "Yagi : Control Flow Guard patching")
          ∷ [])

  -- An answer whose entry has a name.
  abbrev IsNamed : Bytes → Outcome (Option Entry) → Type 0
  IsNamed name (returns (some entry)) = names.entry_name entry ≡ some name
  IsNamed name (returns none) = ⊥
  IsNamed name throws = Unit {0}

  abbrev SymbolNamed : Bytes → Outcome (Symbol × S) → Type 0
  SymbolNamed name (returns (sym, s)) = names.symbol_name sym ≡ name
  SymbolNamed name throws = Unit {0}

  add_other-SymbolNamed :
      (offset size : ℕ) (name : Bytes) (s : S) (t : Built)
      → archi.build_type offset ≡ t
      → SymbolNamed name (add_other proxy archi offset size name s)
  unfolding add_other
  add_other-SymbolNamed offset size name s no_type e =
      rw (e, add_other) (names.name-add_unknown name size s)
  add_other-SymbolNamed offset size name s type e =
      rw (e, add_other) (names.name-add_typed name offset s)
  add_other-SymbolNamed offset size name s raises e = rw (e, add_other) tt

  add_container-SymbolNamed :
      (a : Address) (size : ℕ) (info : SymbolInfo) (s : S) (k : Kind)
      → info.kind ≡ k
      → SymbolNamed info.name (add_container proxy archi a size info s)
  unfolding add_container
  add_container-SymbolNamed a size info s Kind.function e =
      rw (e, add_container) (names.name-add_function a info.name s)
  add_container-SymbolNamed a size info s Kind.import e =
      rw (e, add_container) (names.name-add_external_ref a info.name s)
  add_container-SymbolNamed a size info s Kind.label e =
      rw (e, add_container) (names.name-add_code_label a info.name s)
  add_container-SymbolNamed a size info s Kind.other e =
      rw (e, add_container)
        (add_other-SymbolNamed a.offset size info.name s (archi.build_type a.offset) refl)

  map_container-IsNamed :
      (a usepoint : Address) (info : SymbolInfo) (added : Outcome (Symbol × S)) (size : ℕ) (s : S)
      → add_container proxy archi a size info s ≡ added
      → SymbolNamed info.name added
      → IsNamed info.name (map_container proxy archi a size usepoint info s).0
  unfolding map_container mark_and_map
  map_container-IsNamed a usepoint info throws size s e named = rw (e, map_container) tt
  map_container-IsNamed a usepoint info (returns (sym, s1)) size s e named =
      rw (e, map_container) (names.name-add_map_point sym a usepoint _ ∙ ap some named)

  if-Patched :
      (b : Bool) (addr_size : ℕ) (rax : Option ℕ)
      → Patched b addr_size rax (if b then patch_rax addr_size rax else returns [])
  unfolding patch_rax
  if-Patched false addr_size rax = refl
  if-Patched true addr_size none = refl
  if-Patched true addr_size (some rax_addr) = refl

  patch_entry-IsNamed :
      (cfg name : Bytes) (addr_size : ℕ) (o : Outcome (Option Entry))
      → IsNamed name o
      → is_answer proxy archi o ≡ true
      → Patched
          (bytes_eq name cfg)
          addr_size
          (get_register (codes "RAX"))
          (patch_entry cfg addr_size o)
  unfolding patch_entry patch_named
  patch_entry-IsNamed cfg name addr_size (returns (some entry)) named e =
      rw named (if-Patched (bytes_eq name cfg) addr_size (get_register (codes "RAX")))
  patch_entry-IsNamed cfg name addr_size (returns none) named e = cc
  patch_entry-IsNamed cfg name addr_size throws named e = cc

  find_container-known :
      (a usepoint : Address) (info : SymbolInfo) (size : ℕ) (s : S)
      → proxy.find_container a size usepoint s ≡ none
      → a.in_code_space ≡ true
      → archi.find a.offset ≡ some info
      → find_container proxy archi a size usepoint s
        ≡ map_container proxy archi a size usepoint info s
  unfolding find_container
  find_container-known a usepoint info size s missing code known =
      simp (find_container, missing, code, known)

  -- Where the scope behind has nothing at the target of an indirect call, which lies in the code
  -- space, and the database has a symbol there that can be added, of whatever kind, the rule does
  -- nothing if that symbol has not the name of the wrapper. If it has, the call goes through RAX
  -- and the text gets the warning where the processor has a register of this name, and the rule
  -- throws where it has none.
  pub apply_op-patches :
      (cfg : Bytes) (addr_size : ℕ) (target addr : Address) (info : SymbolInfo) (s : S)
      → proxy.find_container target addr_size addr s ≡ none
      → target.in_code_space ≡ true
      → archi.find target.offset ≡ some info
      → can_add proxy archi target (some info) ≡ true
      → Patched
          (bytes_eq info.name cfg)
          addr_size
          (get_register (codes "RAX"))
          (apply_op cfg addr_size target addr s).0
  unfolding apply_op
  apply_op-patches cfg addr_size target addr info s missing code known can =
      let answered : is_answer proxy archi (find_container proxy archi target addr_size addr s).0
          ≡ true =
        find_container-is_answer proxy archi target addr_size addr s
        ∙ rw (missing, code, known) can in
      let named : IsNamed info.name (find_container proxy archi target addr_size addr s).0 =
        rw (find_container-known target addr info addr_size s missing code known) (
          map_container-IsNamed target addr info _ addr_size s refl
            (add_container-SymbolNamed target addr_size info s info.kind refl)) in
      patch_entry-IsNamed cfg info.name addr_size _ named answered
