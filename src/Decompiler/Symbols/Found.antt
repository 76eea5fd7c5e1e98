-- ===== src/Decompiler/Symbols/Found.antt =====
-- What the view finds in the map of a decompiled function.
use yagi.Common.{
  ℕ, ◌≡◌, refl, ap, ◌∙◌, Bool, true, false, List, [], ◌∷◌, ◌++◌, Option, none, some, Bytes,
  bytes_eq, bytes_eq_refl, if◌then◌else◌, inl, inr, Option-cases,
}
use yagi.Common.Maps.{lookup, emplace, lookup-emplace, or_else}
use yagi.Symbol.Location.{MemoryLocation}
use yagi.Print.Emit.{strip_import}
use yagi.Decompiler.Symbols.{
  Symbols, Address, Input, find_constant_inputs, Varnode, PcodeOp, FuncCallSpecs, Funcdata,
  location, ram, definitions, find_var_symbols, find_call_symbols, find_function_symbols,
  find_constant_symbols, find_symbols,
}

-- The first variable of a name, in the order of the definitions.
abbrev pub first_variable : List PcodeOp → List Varnode → Bytes → Option MemoryLocation
first_variable ops [] k = none
first_variable ops (Varnode.no_symbol ∷ rest) k = first_variable ops rest k
first_variable ops (Varnode.lowlevel_error ∷ rest) k = first_variable ops rest k
first_variable ops (Varnode.symbol a name repr ∷ rest) k =
    if bytes_eq name k
    then some (location repr.addr (definitions ops a repr.def))
    else first_variable ops rest k

-- The first call with a known entry whose printed name it is.
abbrev pub first_call : List FuncCallSpecs → Bytes → Option MemoryLocation
first_call [] k = none
first_call (call ∷ rest) k = elim call.entry [
  | none ↦ first_call rest k
  | some entry ↦ if bytes_eq (strip_import call.name) k then some (ram entry) else first_call rest k
]

or_else_if :
    {A : Type 0} (o p : Option A) (b : Bool) (v : A)
    → or_else (or_else o (if b then some v else none)) p ≡ or_else o (if b then some v else p)
or_else_if (some w) p b v = refl
or_else_if none p true v = refl
or_else_if none p false v = refl

or_else-none : {A : Type 0} (o : Option A) → o ≡ or_else o none
or_else-none none = refl
or_else-none (some v) = refl

lookup-find_var_symbols :
    (ops : List PcodeOp) (varnodes : List Varnode) (symbols : Symbols) (k : Bytes)
    → lookup k (find_var_symbols ops varnodes symbols)
      ≡ or_else (lookup k symbols) (first_variable ops varnodes k)
unfolding find_var_symbols
lookup-find_var_symbols ops [] symbols k = or_else-none (lookup k symbols)
lookup-find_var_symbols ops (Varnode.no_symbol ∷ rest) symbols k =
    lookup-find_var_symbols ops rest symbols k
lookup-find_var_symbols ops (Varnode.lowlevel_error ∷ rest) symbols k =
    lookup-find_var_symbols ops rest symbols k
lookup-find_var_symbols ops (Varnode.symbol a name repr ∷ rest) symbols k =
    lookup-find_var_symbols ops rest
      (emplace name (location repr.addr (definitions ops a repr.def)) symbols) k
    ∙ (ap (λ o. or_else o (first_variable ops rest k))
          (lookup-emplace name k (location repr.addr (definitions ops a repr.def)) symbols)
        ∙ or_else_if (lookup k symbols) (first_variable ops rest k) (bytes_eq name k)
            (location repr.addr (definitions ops a repr.def)))

lookup-find_call_symbols :
    (calls : List FuncCallSpecs) (symbols : Symbols) (k : Bytes)
    → lookup k (find_call_symbols calls symbols) ≡ or_else (lookup k symbols) (first_call calls k)
unfolding find_call_symbols
lookup-find_call_symbols [] symbols k = or_else-none (lookup k symbols)
lookup-find_call_symbols (call ∷ rest) symbols k = elim (Option-cases call.entry) [
  | inl e ↦ rw e (lookup-find_call_symbols rest symbols k)
  | inr (entry, e) ↦ rw e (
      lookup-find_call_symbols rest (emplace (strip_import call.name) (ram entry) symbols) k
      ∙ (ap (λ o. or_else o (first_call rest k))
            (lookup-emplace (strip_import call.name) k (ram entry) symbols)
          ∙ or_else_if (lookup k symbols) (first_call rest k) (bytes_eq (strip_import call.name) k)
              (ram entry)))
]

find_constant_inputs-same :
    (at : ℕ) (inputs : List Input) (symbols : Symbols)
    → find_constant_inputs at inputs symbols ≡ symbols
unfolding find_constant_inputs
find_constant_inputs-same at [] symbols = refl
find_constant_inputs-same at ((true, input) ∷ inputs) symbols =
    find_constant_inputs-same at inputs symbols
find_constant_inputs-same at ((false, input) ∷ inputs) symbols =
    find_constant_inputs-same at inputs symbols

find_constant_symbols-same :
    (ops : List PcodeOp) (symbols : Symbols) → find_constant_symbols ops symbols ≡ symbols
unfolding find_constant_symbols
find_constant_symbols-same [] symbols = refl
find_constant_symbols-same (op ∷ ops) symbols =
    find_constant_symbols-same ops (find_constant_inputs op.addr op.inputs symbols)
    ∙ find_constant_inputs-same op.addr op.inputs symbols

-- The location of a word is that of the first variable of that name; for a word that names no
-- variable it is the entry of the decompiled function if that is its name, and else the entry of
-- the first call that is printed under it.
pub lookup-find_symbols :
    (func : Funcdata) (k : Bytes)
    → lookup k (find_symbols func)
      ≡ or_else
          (first_variable func.ops func.varnodes k)
          (if bytes_eq func.name k then some (ram func.addr) else first_call func.calls k)
unfolding find_symbols find_function_symbols lookup
lookup-find_symbols func k =
    let vars = find_var_symbols func.ops func.varnodes [] in
    ap (lookup k) (find_constant_symbols-same func.ops _)
    ∙ lookup-find_call_symbols func.calls (emplace func.name (ram func.addr) vars) k
    ∙ (ap (λ o. or_else o (first_call func.calls k))
          (lookup-emplace func.name k (ram func.addr) vars
            ∙ ap (λ o. or_else o (if bytes_eq func.name k then some (ram func.addr) else none))
                (lookup-find_var_symbols func.ops func.varnodes [] k))
        ∙ or_else_if (first_variable func.ops func.varnodes k) (first_call func.calls k)
            (bytes_eq func.name k) (ram func.addr))

abbrev pub IsFound : Option MemoryLocation → Type 0
IsFound o = (loc : MemoryLocation) × (o ≡ some loc)

if-IsFound :
    (b : Bool) (v : MemoryLocation) (o : Option MemoryLocation)
    → IsFound o
    → IsFound (if b then some v else o)
if-IsFound true v o h = (v, refl)
if-IsFound false v o h = h

or_else-IsFound : (o p : Option MemoryLocation) → IsFound p → IsFound (or_else o p)
or_else-IsFound (some v) p h = (v, refl)
or_else-IsFound none p h = h

first_call-IsFound :
    (before after : List FuncCallSpecs) (call : FuncCallSpecs) (entry : Address)
    → call.entry ≡ some entry
    → IsFound (first_call (before ++ call ∷ after) (strip_import call.name))
first_call-IsFound [] after call entry h =
    rw (h, bytes_eq_refl (strip_import call.name)) (ram entry, refl)
first_call-IsFound (other ∷ before) after call entry h = elim (Option-cases other.entry) [
  | inl e ↦ rw e (first_call-IsFound before after call entry h)
  | inr (at, e) ↦ rw e (
      if-IsFound (bytes_eq (strip_import other.name) (strip_import call.name)) (ram at) _
        (first_call-IsFound before after call entry h))
]

-- Each function that the decompiled one calls and whose entry is known has a location under the
-- name its call is printed with, without the mark of an import.
pub find_symbols-call :
    (func : Funcdata) (before after : List FuncCallSpecs) (call : FuncCallSpecs) (entry : Address)
    → func.calls ≡ before ++ call ∷ after
    → call.entry ≡ some entry
    → IsFound (lookup (strip_import call.name) (find_symbols func))
find_symbols-call func before after call entry calls known =
    rw (lookup-find_symbols func (strip_import call.name)) (
      or_else-IsFound (first_variable func.ops func.varnodes (strip_import call.name)) _ (
        if-IsFound (bytes_eq func.name (strip_import call.name)) (ram func.addr) _
          (rw calls (first_call-IsFound before after call entry known))))
