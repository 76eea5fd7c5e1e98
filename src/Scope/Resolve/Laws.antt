-- ===== src/Scope/Resolve/Laws.antt =====
-- What the lookups of `YagiScope` return and keep.
use yagi.Common.{
  ℕ, ◌≡◌, refl, ap, ◌∙◌, Bool, true, false, ◌&&◌, ◌||◌, not, Option, none, some, arith, drop,
  Option-cases, inl, inr,
}
use yagi.Base.RoundTrip.{to_hex_injective}
use yagi.Symbol.Info.{Kind}
use yagi.Scope.Proxy.{Address, SymbolInfo, ScopeInternal}
use yagi.Scope.Resolve.{
  Outcome, returns, throws, Archi, Built, raises, inject, add_found, find_function, add_container,
  map_container, find_container, resolve_external_ref_function, build_variable_name,
}

module _ (proxy : ScopeInternal) (archi : Archi) where
  open proxy use {S, Symbol, Entry, Funcdata}

  find_function-inject :
      (a : Address) (f : Funcdata) (s : S)
      → proxy.find_function a (inject proxy archi f s) ≡ proxy.find_function a s
  unfolding inject
  find_function-inject a f s = elim (Option-cases (archi.find_injection (proxy.function_name f))) [
    | inl e ↦ rw (e, inject) refl
    | inr (injection, e) ↦ rw (e, inject) (proxy.find_function-set_inject a f injection s)
  ]

  -- However `update` ends, the function that was added is there.
  pub proxy_kept :
      (a : Address) (info : SymbolInfo) (s : S)
      → proxy.find_function a
          (proxy.update (proxy.get_function (proxy.add_function a info.name s).0) (
            inject proxy archi
              (proxy.get_function (proxy.add_function a info.name s).0)
              (proxy.add_function a info.name s).1)).1
        ≡ some (proxy.get_function (proxy.add_function a info.name s).0)
  proxy_kept a info s =
      proxy.find_function-update a _ _
      ∙ (find_function-inject a (proxy.get_function (proxy.add_function a info.name s).0) _
          ∙ proxy.find_function-add a info.name s)

  pub find_function_adds :
      (a : Address) (info : SymbolInfo) (s : S)
      → archi.find a.offset ≡ some info
      → proxy.find_function a s ≡ none
      → find_function proxy archi a s ≡ add_found proxy archi a info s
  unfolding find_function
  find_function_adds a info s known missing = rw (missing, find_function) (rw known refl)

  pub find_function_again :
      (a : Address) (s : S) (f : Funcdata)
      → proxy.find_function a s ≡ some f
      → find_function proxy archi a s ≡ (returns (some f), s)
  unfolding find_function
  find_function_again a s f h = rw (h, find_function) refl

  -- Where the database knows a function at the address of an external reference, what the
  -- reference resolves to is the function the proxy has there afterwards, also where its
  -- prototype could not be built.
  pub resolve_external_ref_function-found :
      (ref : Address) (info : SymbolInfo) (s : S)
      → archi.find ref.offset ≡ some info
      → proxy.find_function ref (resolve_external_ref_function proxy archi ref s).1
        ≡ (resolve_external_ref_function proxy archi ref s).0
  unfolding resolve_external_ref_function
  resolve_external_ref_function-found ref info s known =
      rw (known, resolve_external_ref_function)
        (proxy.find_function-update ref _ _ ∙ proxy.find_function-add ref info.name s)

  abbrev pub is_answer : {A : Type 0} → Outcome (Option A) → Bool
  is_answer (returns (some x)) = true
  is_answer (returns none) = false
  is_answer throws = false

  abbrev pub is_known : {A : Type 0} → Option A → Bool
  is_known (some x) = true
  is_known none = false

  abbrev pub is_other : Kind → Bool
  is_other Kind.other = true
  is_other _ = false

  abbrev pub is_raised : Built → Bool
  is_raised raises = true
  is_raised _ = false

  -- The database has a symbol that can be added.
  abbrev pub can_add : Address → Option SymbolInfo → Bool
  can_add a none = false
  can_add a (some info) = not (is_other info.kind && is_raised (archi.build_type a.offset))

  map_container-is_answer :
      (a : Address) (size : ℕ) (usepoint : Address) (info : SymbolInfo) (s : S)
      → is_answer (map_container proxy archi a size usepoint info s).0 ≡ can_add a (some info)
  unfolding map_container add_container
  map_container-is_answer a size usepoint info s = ground arith

  -- A container is answered exactly where the proxy has one, or the address lies in the code
  -- space and the database has a symbol there that is of a known kind or whose type does not fail
  -- to build.
  pub find_container-is_answer :
      (a : Address) (size : ℕ) (usepoint : Address) (s : S)
      → is_answer (find_container proxy archi a size usepoint s).0 ≡ (
          is_known (proxy.find_container a size usepoint s)
          || (a.in_code_space && can_add a (archi.find a.offset)))
  unfolding find_container
  find_container-is_answer a size usepoint s =
      ground (arith, map_container-is_answer a size usepoint)

-- Global variables that are given the same name have the same offset.
pub build_variable_name_injective :
    (a b : Address) → build_variable_name a ≡ build_variable_name b → a.offset ≡ b.offset
unfolding build_variable_name
build_variable_name_injective a b h = to_hex_injective a.offset b.offset (ap (drop 4) h)
