-- ===== src/Symbol/Info/Imports.antt =====
-- Imports: how they are found in IDA's tables, and the name that a symbol is given.
use yagi.Common.{
  ℕ, ◌≡◌, refl, Bool, true, false, ◌||◌, List, [], ◌∷◌, ◌++◌, Option, none, some, arith, Bytes,
  bytes_eq, bytes_eq→≡, if◌then◌else◌, ap, ◌∙◌, take, codes, ◌⊎◌, inl, inr, Bool-cases,
  Option-cases, Lacks, cut_at, take-append_length, length,
}
use yagi.Symbol.Info.{
  IdaSymbol, ImportModules, enum_names, enum_import_names, any_module, bare_name, is_import,
  cleaned, demangled, get_name,
}

-- Is the name in one of the tables?
abbrev listed_in : Bytes → List (Option Bytes) → Bool
listed_in name [] = false
listed_in name (none ∷ names) = listed_in name names
listed_in name (some n ∷ names) = bytes_eq name n || listed_in name names

abbrev pub listed : Bytes → ImportModules → Bool
listed name [] = false
listed name (none ∷ ms) = listed name ms
listed name (some names ∷ ms) = listed_in name names || listed name ms

enum_names-listed_in :
    (name : Bytes) (names : List (Option Bytes))
    → enum_names name names ≡ (if listed_in name names then 0 else 1)
unfolding enum_names
enum_names-listed_in name [] = refl
enum_names-listed_in name (none ∷ names) = enum_names-listed_in name names
enum_names-listed_in name (some n ∷ names) = ground (arith, enum_names-listed_in name names)

any_module-listed : (name : Bytes) (ms : ImportModules) → any_module name ms ≡ listed name ms
unfolding any_module enum_import_names
any_module-listed name [] = refl
any_module-listed name (none ∷ ms) = any_module-listed name ms
any_module-listed name (some names ∷ ms) =
    ground (arith, enum_names-listed_in name names, any_module-listed name ms)

-- A symbol is an import exactly if some module that IDA can read lists its bare name.
pub is_import-listed :
    (modules : ImportModules) (s : IdaSymbol)
    → is_import modules s ≡ listed (bare_name s.name) modules
unfolding is_import
is_import-listed modules s = any_module-listed (bare_name s.name) modules

module _ (cleanup_name : ℕ → Bytes → Option Bytes) (demangle_name : Bytes → Bytes) where
  -- The name that is demangled: that of IDA for a function without one of its own and for what
  -- IDA refuses, and else IDA's.
  abbrev pub IsCleaned : IdaSymbol → Bytes → Type 0
  IsCleaned s pname =
      ((take 4 s.name ≡ codes "sub_") × (pname ≡ s.name))
      ⊎ ((¬ (take 4 s.name ≡ codes "sub_"))
          × (((cleanup_name s.ea s.name ≡ none) × (pname ≡ s.name))
              ⊎ (cleanup_name s.ea s.name ≡ some pname)))

  -- The base of the name: it is what IDA demangles, if that is empty, or the demangled name up to
  -- its first parenthesis.
  abbrev pub IsBase : Bytes → Bytes → Type 0
  IsBase pname base =
      ((demangle_name pname ≡ []) × (base ≡ pname))
      ⊎ ((¬ (demangle_name pname ≡ []))
          × Lacks b'(' base
          × ((demangle_name pname ≡ base)
              ⊎ ((params : Bytes) × (demangle_name pname ≡ base ++ b'(' ∷ params))))

  cleaned-IsCleaned : (s : IdaSymbol) → IsCleaned s (cleaned cleanup_name demangle_name s)
  unfolding cleaned
  cleaned-IsCleaned s = elim (Bool-cases (bytes_eq (take 4 s.name) (codes "sub_"))) [
    | inl e ↦ rw e (inl (bytes_eq→≡ (take 4 s.name) (codes "sub_") e, refl))
    | inr e ↦
        let other : ¬ (take 4 s.name ≡ codes "sub_") =
          λ is. let same : bytes_eq (take 4 s.name) (codes "sub_") ≡ true = rw is refl in cc in
        rw e (
          inr (
            other,
            elim (Option-cases (cleanup_name s.ea s.name)) [
              | inl c ↦ rw c (inl (refl, refl))
              | inr (pname, c) ↦ rw c (inr refl)
            ],
          ))
  ]

  empty_or_not : (s : Bytes) → (s ≡ []) ⊎ ((c : ℕ) × (n : Bytes) × (s ≡ c ∷ n) × (¬ (s ≡ [])))
  empty_or_not [] = inl refl
  empty_or_not (c ∷ n) = inr (c, n, refl, λ is. cc)

  demangled-IsBase : (pname : Bytes) → IsBase pname (demangled cleanup_name demangle_name pname)
  unfolding demangled
  demangled-IsBase pname = elim (empty_or_not (demangle_name pname)) [
    | inl e ↦ rw (demangled, e) (inl (refl, refl))
    | inr (c, n, e, filled) ↦ elim (cut_at b'(' (c ∷ n)) [
      | inl (lacks, none_there) ↦ rw (demangled, e, none_there) (inr (λ is. cc, lacks, inl refl))
      | inr (before, behind, lacks, is, there) ↦
          let cut : take (length before) (c ∷ n) ≡ before =
            ap (take (length before)) is ∙ take-append_length before (b'(' ∷ behind) in
          rw (demangled, e, there, cut) (inr (λ is'. cc, lacks, inr (behind, is)))
    ]
  ]

  -- The name of a symbol is a base, with the mark of an import in front exactly if some module
  -- that IDA can read lists the symbol's bare name. What is demangled is IDA's own name where
  -- that begins with `sub_` or IDA refuses to clean it, and else the cleaned one; the base is
  -- that if it demangles to nothing, and else the demangled name up to its first parenthesis.
  pub get_name-IsBase :
      (modules : ImportModules) (s : IdaSymbol)
      → (pname : Bytes) × (base : Bytes) × IsCleaned s pname
        × IsBase pname base
        × (get_name cleanup_name demangle_name modules s
            ≡ (if listed (bare_name s.name) modules then codes "__imp_" ++ base else base))
  unfolding get_name
  get_name-IsBase modules s =
      let pname = cleaned cleanup_name demangle_name s in
      (
        pname,
        demangled cleanup_name demangle_name pname,
        cleaned-IsCleaned s,
        demangled-IsBase pname,
        rw is_import-listed refl,
      )
