-- ===== src/Decompiler/Decompile/Completes.antt =====
-- `decompile` returns a result where no step of it throws.
use yagi.Common.{ℕ, ◌≡◌, refl, sym, ap, subst, ◌∙◌, Bool, true, false, Option, some, Bytes}
use yagi.Scope.Proxy.{ScopeInternal, SymbolInfo}
use yagi.Scope.Resolve.{Archi}
use yagi.Decompiler.Symbols.{find_symbols}
use yagi.Decompiler.Decompile.{
  Thrown, Try, value, throws, null_pointer, M, after, DecompilerResult, Ghidra, scope_function,
  printed, decompile_symbol, caught, decompile,
}
use yagi.Decompiler.Decompile.Answers.{is_fine, Steps, scope_function-fine}

-- No exception is allowed.
abbrev pub no_exception : Thrown → Bool
no_exception e = false

fine-value : {A : Type 0} (o : Try A) → is_fine no_exception o ≡ true → (a : A) × (o ≡ value a)
fine-value (value a) e = (a, refl)
fine-value (throws x) e = cc
fine-value null_pointer e = cc

after-value :
    {S A B : Type 0} (f : A → M S B) (p : Try A × S) (a : A) → p.0 ≡ value a → after f p ≡ f a p.1
after-value f (value b, s) a e = let same : b ≡ a = cc in ap (λ x. f x s) same
after-value f (throws x, s) a e = cc
after-value f (null_pointer, s) a e = cc

module _ (proxy : ScopeInternal) (archi : Archi) (ghidra : Ghidra proxy)
    (steps : Steps proxy archi ghidra no_exception) where
  open proxy use {S}

  -- The result of a function of a name and an address, which the cleared scope finds: its
  -- analysis is cleared and the actions are performed on it, in this order, the symbols are those
  -- that Ghidra has after the actions, the text is what it prints then, and nothing changes the
  -- scope behind the printer.
  abbrev pub Made : Bytes → ℕ → S → DecompilerResult → S → Type 0
  Made name ea start r final =
      let found = scope_function proxy archi ghidra ea start in
      (f : proxy.Funcdata) × (r.name ≡ name)
      × (r.ea ≡ ea)
      × (found.0 ≡ value f)
      × (let cleared = (ghidra.clear_analysis f found.1).1 in
          let performed = (ghidra.perform_actions f cleared).1 in
          (r.symbol_address ≡ find_symbols (ghidra.data_of f performed))
          × ((ghidra.doc_function f performed).0 ≡ value r.c_code)
          × (final ≡ (ghidra.doc_function f performed).1))

  abbrev pub Completed : Bytes → ℕ → S → Try (Option DecompilerResult) × S → Type 0
  Completed name ea start o =
      (r : DecompilerResult) × (o.0 ≡ value (some r)) × Made name ea start r o.1

  printed-Completed :
      (name : Bytes) (ea : ℕ) (f : proxy.Funcdata) (start : S)
      → (scope_function proxy archi ghidra ea start).0 ≡ value f
      → Completed name ea start
          (printed proxy archi ghidra name ea f (scope_function proxy archi ghidra ea start).1)
  unfolding printed
  printed-Completed name ea f start found =
      let s : S = (scope_function proxy archi ghidra ea start).1 in
      let (u₁, e₁) = fine-value (ghidra.clear_analysis f s).0 (steps.clear_analysis-fine f s) in
      let s₁ : S = (ghidra.clear_analysis f s).1 in
      let (u₂, e₂) = fine-value (ghidra.perform_actions f s₁).0 (steps.perform_actions-fine f s₁) in
      let s₂ : S = (ghidra.perform_actions f s₁).1 in
      let (text, e₃) = fine-value (ghidra.doc_function f s₂).0 (steps.doc_function-fine f s₂) in
      let all : printed proxy archi ghidra name ea f s ≡ _ =
        after-value _ (ghidra.clear_analysis f s) u₁ e₁
        ∙ after-value _ (ghidra.perform_actions f s₁) u₂ e₂
        ∙ after-value _ (ghidra.doc_function f s₂) text e₃ in
      (
        record {
          name = name;
          ea = ea;
          c_code = text;
          symbol_address = find_symbols (ghidra.data_of f s₂);
        },
        ap (λ p. p.0) all,
        (f, refl, refl, found, (refl, e₃, ap (λ p. p.1) all)),
      )

  decompile_symbol-Completed :
      (name : Bytes) (address : ℕ) (info : SymbolInfo) (s : S)
      → archi.find address ≡ some info
      → Completed name address
          (ghidra.clear_noncore (ghidra.clear s))
          (decompile_symbol proxy archi ghidra (some (name, address)) s)
  unfolding decompile_symbol
  decompile_symbol-Completed name address info s known =
      let s₁ : S = ghidra.clear_noncore (ghidra.clear s) in
      let (f, e) =
        fine-value (scope_function proxy archi ghidra address s₁).0
          (scope_function-fine proxy archi ghidra no_exception steps address info s₁ known) in
      subst (Completed name address s₁)
        (sym (
          after-value (printed proxy archi ghidra name address)
            (scope_function proxy archi ghidra address s₁) f e))
        (printed-Completed name address f s₁ e)

  caught-Completed :
      (name : Bytes) (ea : ℕ) (start : S) (o : Try (Option DecompilerResult) × S)
      → Completed name ea start o
      → Completed name ea start (caught proxy archi ghidra o.0, o.1)
  unfolding caught
  caught-Completed name ea start o (r, e, made) = (r, ap (caught proxy archi ghidra) e, made)

  -- Where no step throws, the types of functions can be set, and the database has a symbol at the
  -- address of each function it finds, decompiling an address in a function gives a result with
  -- the function's name and address. It is that of the function that the cleared scope finds at
  -- this address: its analysis is cleared there, then the actions are performed on it, the
  -- symbols are those that Ghidra has after that, and the text is what it prints then, in the
  -- state that is left.
  pub decompile-completes :
      (ea address : ℕ) (name : Bytes) (s : S)
      → (ghidra.find_function ea s).0 ≡ value (some (name, address))
      → Completed name address
          (ghidra.clear_noncore (ghidra.clear (ghidra.find_function ea s).1))
          (decompile proxy archi ghidra ea s)
  unfolding decompile
  decompile-completes ea address name s found =
      let (info, known) = steps.find-known ea address name s found in
      let s' : S = (ghidra.find_function ea s).1 in
      caught-Completed name address (ghidra.clear_noncore (ghidra.clear s')) _ (
        subst (Completed name address (ghidra.clear_noncore (ghidra.clear s')))
          (sym (
            after-value (decompile_symbol proxy archi ghidra) (ghidra.find_function ea s)
              (some (name, address)) found))
          (decompile_symbol-Completed name address info s' known))
