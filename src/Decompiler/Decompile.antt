-- ===== src/Decompiler/Decompile.antt =====
-- `GhidraDecompiler::decompile` of yagi/src/ghidradecompiler.cc. A step of it has a value, throws,
-- or reads through a null pointer.
pub mod Answers
pub mod Completes
use yagi.Common.{ℕ, Bool, true, false, List, Option, none, some, Bytes}
use yagi.Symbol.Location.{MemoryLocation}
use yagi.Scope.Proxy.{Address, ScopeInternal}
use yagi.Scope.Resolve
use yagi.Scope.Resolve.{Archi, find_function}
use yagi.Decompiler.Symbols.{Funcdata, Symbols, find_symbols}

-- What is thrown: an exception of Ghidra, of yagi or of the C++ library with its message, or
-- anything else.
pub data Thrown : Type 0 where
  lowlevel_error error std_exception : Bytes → Thrown
  other : Thrown

pub data Try (A : Type 0) : Type 0 where
  value : A → Try A
  throws : Thrown → Try A
  null_pointer : Try A

abbrev pub M : Type 0 → Type 0 → Type 0
M S A = S → Try A × S

module _ {S : Type 0} where
  abbrev pub return : {A : Type 0} → A → M S A
  return a s = (value a, s)

  abbrev pub after : {A B : Type 0} → (A → M S B) → Try A × S → Try B × S
  after f (value a, s) = f a s
  after f (throws e, s) = (throws e, s)
  after f (null_pointer, s) = (null_pointer, s)

  infixl 5 ◌>>=◌ ◌>>◌
  abbrev pub ◌>>=◌ : {A B : Type 0} → M S A → (A → M S B) → M S B
  (m >>= f) s = after f (m s)

  abbrev pub ◌>>◌ : {A B : Type 0} → M S A → M S B → M S B
  m >> k = m >>= λ _. k

-- `Decompiler::Result`.
pub record DecompilerResult : Type 0 where
  pub name : Bytes
  pub ea : ℕ
  pub c_code : Bytes
  pub symbol_address : Symbols

-- The symbol database, and what `decompile` calls of Ghidra, on the state of the scope. `data`
-- reads what Ghidra knows of a function; `doc_function` is the text it prints, with the set up of
-- the printer before it. The last field is the exception that leaves the scope's `findFunction`.
pub record Ghidra (proxy : ScopeInternal) : Type 0 where
  pub find_function : ℕ → M proxy.S (Option (Bytes × ℕ))
  pub clear : proxy.S → proxy.S
  pub clear_noncore : proxy.S → proxy.S
  pub clear_analysis : proxy.Funcdata → M proxy.S (Unit {0})
  pub perform_actions : proxy.Funcdata → M proxy.S (Unit {0})
  pub data_of : proxy.Funcdata → proxy.S → Funcdata
  pub doc_function : proxy.Funcdata → M proxy.S Bytes
  pub type_exception : Thrown

module _ (proxy : ScopeInternal) (archi : Archi) (ghidra : Ghidra proxy) where
  open proxy use {S}

  -- The scope's function, which is used through its pointer.
  pub used : Resolve.Outcome (Option proxy.Funcdata) → Try proxy.Funcdata
  used (Resolve.Outcome.returns (some func)) = value func
  used (Resolve.Outcome.returns none) = null_pointer
  used Resolve.Outcome.throws = throws ghidra.type_exception

  pub scope_function : ℕ → M S proxy.Funcdata
  unfolding used
  scope_function ea s =
      let (found, s') =
        Resolve.find_function proxy archi (record { in_code_space = true; offset = ea }) s in
      (used found, s')

  pub printed : Bytes → ℕ → proxy.Funcdata → M S (Option DecompilerResult)
  printed name ea func = do
    ghidra.clear_analysis func
    ghidra.perform_actions func
    symbols ← (λ s. (value (find_symbols (ghidra.data_of func s)), s))
    text ← ghidra.doc_function func
    return (some record { name = name; ea = ea; c_code = text; symbol_address = symbols })

  pub decompile_symbol : Option (Bytes × ℕ) → M S (Option DecompilerResult)
  unfolding scope_function printed
  decompile_symbol none = return none
  decompile_symbol (some (name, ea)) = do
    (λ s. (value tt, ghidra.clear_noncore (ghidra.clear s)))
    func ← scope_function ea
    printed name ea func

  -- The handlers, which log the message.
  pub caught : Try (Option DecompilerResult) → Try (Option DecompilerResult)
  caught (value result) = value result
  caught (throws (lowlevel_error explain)) = value none
  caught (throws (error what)) = value none
  caught (throws (std_exception what)) = value none
  caught (throws other) = throws other
  caught null_pointer = null_pointer

  pub decompile : ℕ → M S (Option DecompilerResult)
  unfolding caught
  decompile func_address s =
      let (result, s') = (ghidra.find_function func_address >>= decompile_symbol) s in
      (caught result, s')
