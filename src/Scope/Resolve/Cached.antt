-- ===== src/Scope/Resolve/Cached.antt =====
-- The scope is a cache of the database: a lookup that is made twice.
use yagi.Common.{
  if◌then◌else◌, ◌∙◌, ap, Bool-cases, Bool, ◌≡◌, refl, Option, none, some, if_both, Option-cases,
  inl, inr, subst, sym,
}
use yagi.Scope.Proxy.{Address, SymbolInfo, ScopeInternal}
use yagi.Scope.Resolve.{
  Outcome, returns, throws, Archi, inject, add_found, find_function, find_external_ref,
  find_code_label,
}
use yagi.Scope.Resolve.Laws.{proxy_kept, find_function_adds, find_function_again}

-- A lookup that asks what it keeps, then what is found elsewhere, which it adds if it passes a test.
module _ {S Symbol : Type 0} (kept : S → Option Symbol) (found : Option SymbolInfo)
    (passes : SymbolInfo → Bool) (add : SymbolInfo → S → Symbol × S)
    (kept-add : (info : SymbolInfo) (s : S) → kept (add info s).1 ≡ some (add info s).0) where
  abbrev keep_added : Symbol × S → Option Symbol × S
  keep_added (x, s) = (some x, s)

  abbrev look : S → Option Symbol × S
  look s = elim (kept s) [
    | some x ↦ (some x, s)
    | none ↦ elim found [
      | none ↦ (none, s)
      | some info ↦ if passes info then keep_added (add info s) else (none, s)
    ]
  ]

  look-kept : (s : S) (x : Symbol) → kept s ≡ some x → look s ≡ (some x, s)
  look-kept s x e = rw (e, look) refl

  look-unchanged : (s : S) (x : Option Symbol) → look s ≡ (x, s) → look (look s).1 ≡ look s
  look-unchanged s x e = ap (λ r. look r.1) e

  -- It changes nothing the second time.
  look-look : (s : S) → look (look s).1 ≡ look s
  look-look s = elim (Option-cases (kept s)) [
    | inr (x, e) ↦ look-unchanged s (some x) (look-kept s x e)
    | inl e ↦ elim (Option-cases found) [
      | inl e' ↦ look-unchanged s none (rw (e, look) (rw e' refl))
      | inr (info, e') ↦ elim (Bool-cases (passes info)) [
        | inr e'' ↦ look-unchanged s none (rw (e, look) (rw (e', e'') refl))
        | inl e'' ↦
            let (x, s') = add info s in
            let added : look s ≡ (some x, s') = rw (e, look) (rw (e', e'') refl) in
            ap (λ r. look r.1) added ∙ look-kept s' x (kept-add info s) ∙ sym added
      ]
    ]
  ]

module _ (proxy : ScopeInternal) (archi : Archi) where
  open proxy use {S, Symbol, Funcdata}

  find_external_ref_again :
      (a : Address) (s : S)
      → find_external_ref proxy archi a (find_external_ref proxy archi a s).1
        ≡ find_external_ref proxy archi a s
  unfolding find_external_ref
  find_external_ref_again a s =
      look-look (proxy.find_external_ref a) (archi.find a.offset) (λ info. info.is_import)
        (λ info. proxy.add_external_ref a info.name)
        (λ info. proxy.find_external_ref-add a info.name) s

  find_code_label_again :
      (a : Address) (s : S)
      → find_code_label proxy archi a (find_code_label proxy archi a s).1
        ≡ find_code_label proxy archi a s
  unfolding find_code_label
  find_code_label_again a s =
      look-look (proxy.find_code_label a) (archi.find a.offset) (λ info. info.is_label)
        (λ info. proxy.add_code_label a info.name) (λ info. proxy.find_code_label-add a info.name) s

  -- What a second `findFunction` does after the first: the same if that returned, and if its
  -- exception left it, it returns the function that was added. Neither changes anything.
  abbrev pub Repeats : Address → Outcome (Option Funcdata) × S → Type 0
  Repeats a (returns x, s) = find_function proxy archi a s ≡ (returns x, s)
  Repeats a (throws, s) = (f : Funcdata) × (find_function proxy archi a s ≡ (returns (some f), s))

  add_found-Repeats :
      (a : Address) (info : SymbolInfo) (s : S) → Repeats a (add_found proxy archi a info s)
  unfolding add_found
  add_found-Repeats a info s =
      let f : Funcdata = proxy.get_function (proxy.add_function a info.name s).0 in
      let (done, s2) = proxy.update f (inject proxy archi f (proxy.add_function a info.name s).1) in
      let again = find_function_again proxy archi a s2 f (proxy_kept proxy archi a info s) in
      if_both {A = Outcome (Option Funcdata) × S} (Repeats a) done (returns (some f), s2)
        (throws, s2) again (f, again)

  find_function_missing :
      (a : Address) (s : S)
      → proxy.find_function a s ≡ none
      → archi.find a.offset ≡ none
      → find_function proxy archi a s ≡ (returns none, s)
  unfolding find_function
  find_function_missing a s e e' = rw (e, find_function) (rw e' refl)

  find_function-Repeats : (a : Address) (s : S) → Repeats a (find_function proxy archi a s)
  find_function-Repeats a s = elim (Option-cases (proxy.find_function a s)) [
    | inr (f, e) ↦
        let again = find_function_again proxy archi a s f e in subst (Repeats a) (sym again) again
    | inl e ↦ elim (Option-cases (archi.find a.offset)) [
      | inl e' ↦
          let missing = find_function_missing a s e e' in subst (Repeats a) (sym missing) missing
      | inr (info, e') ↦
          subst (Repeats a) (sym (find_function_adds proxy archi a info s e' e))
            (add_found-Repeats a info s)
    ]
  ]

  -- A second lookup of an external reference or of a code label at an address has the result of
  -- the first and changes nothing, whatever the database has there. A second lookup of a function
  -- changes nothing either, and returns what the first one returned, or the function it added
  -- where an exception left it.
  pub lookup-again :
      (a : Address) (s : S)
      → (find_external_ref proxy archi a (find_external_ref proxy archi a s).1
          ≡ find_external_ref proxy archi a s)
        × (find_code_label proxy archi a (find_code_label proxy archi a s).1
            ≡ find_code_label proxy archi a s)
        × Repeats a (find_function proxy archi a s)
  lookup-again a s =
      (find_external_ref_again a s, find_code_label_again a s, find_function-Repeats a s)
