-- ===== src/Decompiler/Decompile/Answers.antt =====
-- `decompile` answers: no exception and no null pointer leaves it.
use yagi.Common.{
  ℕ, ◌≡◌, refl, Bool, true, false, ◌⊎◌, Option, none, some, Bytes, Option-cases, inl, inr,
  if◌then◌else◌,
}
use yagi.Scope.Proxy.{Address, SymbolInfo, ScopeInternal}
use yagi.Scope.Resolve
use yagi.Scope.Resolve.{Archi, add_found}
use yagi.Scope.Resolve.Laws.{find_function_adds, find_function_again}
use yagi.Decompiler.Decompile.{
  Thrown, lowlevel_error, error, std_exception, other, Try, value, throws, null_pointer, M, after,
  ◌>>=◌, DecompilerResult, Ghidra, used, scope_function, printed, decompile_symbol, caught,
  decompile,
}

-- A value, or one of the exceptions that are allowed.
abbrev pub is_fine : {A : Type 0} → (Thrown → Bool) → Try A → Bool
is_fine allowed (value a) = true
is_fine allowed (throws e) = allowed e
is_fine allowed null_pointer = false

abbrev pub is_caught : Thrown → Bool
is_caught (lowlevel_error explain) = true
is_caught (error what) = true
is_caught (std_exception what) = true
is_caught other = false

-- The steps end with a value or an exception that is allowed, and the database has a symbol at
-- the address of each function that it finds.
pub record Steps (proxy : ScopeInternal) (archi : Archi) (ghidra : Ghidra proxy)
    (allowed : Thrown → Bool) : Type 0 where
  pub find_function-fine :
      (ea : ℕ) (s : proxy.S) → is_fine allowed (ghidra.find_function ea s).0 ≡ true
  pub clear_analysis-fine :
      (f : proxy.Funcdata) (s : proxy.S) → is_fine allowed (ghidra.clear_analysis f s).0 ≡ true
  pub perform_actions-fine :
      (f : proxy.Funcdata) (s : proxy.S) → is_fine allowed (ghidra.perform_actions f s).0 ≡ true
  pub doc_function-fine :
      (f : proxy.Funcdata) (s : proxy.S) → is_fine allowed (ghidra.doc_function f s).0 ≡ true
  pub update-fine :
      (f : proxy.Funcdata) (s : proxy.S)
      → ((proxy.update f s).0 ≡ true) ⊎ (allowed ghidra.type_exception ≡ true)
  pub find-known :
      (ea address : ℕ) (name : Bytes) (s : proxy.S)
      → (ghidra.find_function ea s).0 ≡ value (some (name, address))
      → (info : SymbolInfo) × (archi.find address ≡ some info)

module _ (allowed : Thrown → Bool) {S : Type 0} where
  after-fine :
      {A B : Type 0} (f : A → M S B) (p : Try A × S)
      → is_fine allowed p.0 ≡ true
      → ((a : A) (s : S) → p.0 ≡ value a → is_fine allowed (f a s).0 ≡ true)
      → is_fine allowed (after f p).0 ≡ true
  after-fine f (value a, s) e h = h a s refl
  after-fine f (throws x, s) e h = e
  after-fine f (null_pointer, s) e h = e

module _ (proxy : ScopeInternal) (archi : Archi) (ghidra : Ghidra proxy) (allowed : Thrown → Bool)
    (steps : Steps proxy archi ghidra allowed) where
  open proxy use {S}

  used-fine :
      (func : proxy.Funcdata) (done : Bool) (s : S)
      → (done ≡ true) ⊎ (allowed ghidra.type_exception ≡ true)
      → is_fine allowed (
          used proxy archi ghidra
            (if◌then◌else◌ {A = Resolve.Outcome (Option proxy.Funcdata) × S} done
              (Resolve.Outcome.returns (some func), s)
              (Resolve.Outcome.throws, s)).0)
        ≡ true
  unfolding used
  used-fine func true s h = refl
  used-fine func false s (inl e) = cc
  used-fine func false s (inr e) = e

  pub scope_function-fine :
      (ea : ℕ) (info : SymbolInfo) (s : S)
      → archi.find ea ≡ some info
      → is_fine allowed (scope_function proxy archi ghidra ea s).0 ≡ true
  unfolding scope_function add_found
  scope_function-fine ea info s known =
      let a : Address = record { in_code_space = true; offset = ea } in
      elim (Option-cases (proxy.find_function a s)) [
        | inl e ↦ rw (find_function_adds proxy archi a info s known e) (
            used-fine (proxy.get_function (proxy.add_function a info.name s).0) _ _
              (steps.update-fine (proxy.get_function (proxy.add_function a info.name s).0) _))
        | inr (f, e) ↦ rw (find_function_again proxy archi a s f e) refl
      ]

  printed-fine :
      (name : Bytes) (ea : ℕ) (func : proxy.Funcdata) (s : S)
      → is_fine allowed (printed proxy archi ghidra name ea func s).0 ≡ true
  unfolding printed
  printed-fine name ea func s =
      after-fine allowed _ (ghidra.clear_analysis func s) (steps.clear_analysis-fine func s)
        λ _ s₁ e₁.
          after-fine allowed _ (ghidra.perform_actions func s₁) (steps.perform_actions-fine func s₁)
            λ _ s₂ e₂.
              after-fine allowed _ (ghidra.doc_function func s₂) (steps.doc_function-fine func s₂)
                λ text s₃ e₃. refl

  decompile_symbol-fine :
      (ea : ℕ) (found : Option (Bytes × ℕ)) (s s' : S)
      → (ghidra.find_function ea s').0 ≡ value found
      → is_fine allowed (decompile_symbol proxy archi ghidra found s).0 ≡ true
  unfolding decompile_symbol
  decompile_symbol-fine ea none s s' e = refl
  decompile_symbol-fine ea (some (name, address)) s s' e =
      let (info, known) = steps.find-known ea address name s' e in
      let s₁ : S = ghidra.clear_noncore (ghidra.clear s) in
      after-fine allowed (printed proxy archi ghidra name address)
        (scope_function proxy archi ghidra address s₁) (scope_function-fine address info s₁ known)
        λ func s₂ e₂. printed-fine name address func s₂

  body-fine :
      (ea : ℕ) (s : S)
      → is_fine allowed ((ghidra.find_function ea >>= decompile_symbol proxy archi ghidra) s).0
        ≡ true
  body-fine ea s =
      after-fine allowed (decompile_symbol proxy archi ghidra) (ghidra.find_function ea s)
        (steps.find_function-fine ea s) λ found s' e. decompile_symbol-fine ea found s' s e

module _ (proxy : ScopeInternal) (archi : Archi) (ghidra : Ghidra proxy) where
  caught-answers :
      (o : Try (Option DecompilerResult))
      → is_fine is_caught o ≡ true
      → (result : Option DecompilerResult) × (caught proxy archi ghidra o ≡ value result)
  unfolding caught
  caught-answers (value result) e = (result, refl)
  caught-answers (throws (lowlevel_error explain)) e = (none, refl)
  caught-answers (throws (error what)) e = (none, refl)
  caught-answers (throws (std_exception what)) e = (none, refl)
  caught-answers (throws other) e = cc
  caught-answers null_pointer e = cc

  -- Where each step ends with a value or an exception of Ghidra, yagi or the C++ library, and the
  -- database has a symbol at the address of each function it finds, decompiling any address gives
  -- a result or none: no exception leaves it and no null pointer is used.
  pub decompile-answers :
      (ea : ℕ) (s : proxy.S)
      → Steps proxy archi ghidra is_caught
      → (result : Option DecompilerResult) × ((decompile proxy archi ghidra ea s).0 ≡ value result)
  unfolding decompile
  decompile-answers ea s steps =
      caught-answers _ (body-fine proxy archi ghidra is_caught steps ea s)
