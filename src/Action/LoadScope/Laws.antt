-- ===== src/Action/LoadScope/Laws.antt =====
-- The symbol that a variable on the stack gets after a type was saved for it.
use yagi.Common.{
  ℕ, ◌^◌, ◌<◌, ◌≡◌, refl, sym, ap, subst, ◌∙◌, true, List, [], ◌∷◌, ◌++◌, All, Option, none, some,
  Bytes, codes, Lacks,
}
use yagi.Symbol.Location.{MemoryLocation}
use yagi.Symbol.Netnode.{NetnodeApi}
use yagi.Symbol.Saved
use yagi.Symbol.Saved.{Outcome, find_type, save_type}
use yagi.Symbol.Saved.Laws.{elem, find_type-save_type}
use yagi.Symbol.Saved.Apart.{find_type-find_type}
use yagi.Types.Manager.Monad.{ok, M}
use yagi.Action.Rename.{searched, offset_or}
use yagi.Action.LoadScope.{LocalScope, Stop, usepoint_of, add_typed, load_found, load_at, load_vars}

module _ (api : NetnodeApi) {T D FS : Type 0} (parse_decl : Bytes → Option T) (find : T → M FS D)
    (scope : LocalScope D) (unset : ℕ) where
  open api use {Db}
  open scope use {S, Symbol}

  -- The scope with a symbol of a type on the stack.
  abbrev pub with_symbol : D → ℕ → S → S
  with_symbol d offset s =
      let (sym, s') = scope.add_symbol d (codes "stack") offset none s in scope.lock_type sym s'

  with_symbol-found :
      (d : D) (offset : ℕ) (s : S)
      → (y : Symbol) × (scope.find_addr (codes "stack") offset none (with_symbol d offset s)
          ≡ some y)
  with_symbol-found d offset s = (
    (scope.add_symbol d (codes "stack") offset none s).0,
    scope.find_addr-lock_type _ (codes "stack") offset none _
        ∙ scope.find_addr-add_symbol d (codes "stack") offset none s,
  )

  load_at-added :
      (space : Bytes) (pc offset : ℕ) (t : T) (d : D) (fs fs' : FS) (s : S)
      → searched space ≡ codes "stack"
      → scope.find_addr (codes "stack") offset none s ≡ none
      → find t fs ≡ (ok d, fs')
      → load_at api parse_decl find scope unset space pc
          (Saved.Outcome.returns (some t) (some offset))
          fs
          s
        ≡ (none, fs', with_symbol d offset s)
  unfolding load_at offset_or usepoint_of load_found add_typed
  load_at-added space pc offset t d fs fs' s stacked missing typed =
      rw (load_at, stacked, missing, typed) refl

  load_at-kept :
      (space : Bytes) (pc offset : ℕ) (t : T) (y : Symbol) (fs : FS) (s : S)
      → searched space ≡ codes "stack"
      → scope.find_addr (codes "stack") offset none s ≡ some y
      → load_at api parse_decl find scope unset space pc
          (Saved.Outcome.returns (some t) (some offset))
          fs
          s
        ≡ (none, fs, s)
  unfolding load_at offset_or usepoint_of load_found
  load_at-kept space pc offset t y fs s stacked found = rw (load_at, stacked, found) refl

  -- Each of the operations is one where a type is saved.
  abbrev Typed : ℕ → Bytes → T → ℕ → Db → List ℕ → Type 0
  Typed func space t offset db pcs =
      All
        (λ pc.
          (find_type api parse_decl func pc space db).0
          ≡ Saved.Outcome.returns (some t) (some offset))
        pcs

  Typed-next :
      (func : ℕ) (space : Bytes) (t : T) (offset pc : ℕ) (db : Db) (pcs : List ℕ)
      → Typed func space t offset db pcs
      → Typed func space t offset (find_type api parse_decl func pc space db).1 pcs
  Typed-next func space t offset pc db [] typed = tt
  Typed-next func space t offset pc db (pc' ∷ pcs) (e, typed) = (
    find_type-find_type api parse_decl func space pc pc' db ∙ e,
    Typed-next func space t offset pc db pcs typed,
  )

  load_vars-step :
      (func : ℕ) (space : Bytes) (pc : ℕ) (pcs : List ℕ) (o : Outcome T) (db : Db) (fs fs' : FS)
      (s s' : S)
      → (find_type api parse_decl func pc space db).0 ≡ o
      → load_at api parse_decl find scope unset space pc o fs s ≡ (none, fs', s')
      → load_vars api parse_decl find scope unset func space (pc ∷ pcs) db fs s
        ≡ load_vars api parse_decl find scope unset func space pcs
            (find_type api parse_decl func pc space db).1
            fs'
            s'
  unfolding load_vars
  load_vars-step func space pc pcs o db fs fs' s s' e e' = rw (e, e') refl

  -- What a run of the loop leaves: no exception, and these states.
  abbrev Leaves : Option Stop × Db × FS × S → FS → S → Type 0
  Leaves r fs s = (r.0 ≡ none) × (r.2 ≡ fs) × (r.3 ≡ s)

  load_vars-kept :
      (func : ℕ) (space : Bytes) (t : T) (offset : ℕ) (y : Symbol) (pcs : List ℕ) (db : Db)
      (fs : FS) (s : S)
      → searched space ≡ codes "stack"
      → scope.find_addr (codes "stack") offset none s ≡ some y
      → Typed func space t offset db pcs
      → Leaves (load_vars api parse_decl find scope unset func space pcs db fs s) fs s
  unfolding load_vars
  load_vars-kept func space t offset y [] db fs s stacked found typed = (refl, refl, refl)
  load_vars-kept func space t offset y (pc ∷ pcs) db fs s stacked found (e, typed) =
      let db' : Db = (find_type api parse_decl func pc space db).1 in
      subst (λ r. Leaves r fs s)
        (sym (
          load_vars-step func space pc pcs _ db fs fs s s e
            (load_at-kept space pc offset t y fs s stacked found)))
        (load_vars-kept func space t offset y pcs db' fs s stacked found
          (Typed-next func space t offset pc db pcs typed))

  Typed-save_type :
      (func : ℕ) (loc : MemoryLocation) (type_name : Bytes) (t : T) (pcs : List ℕ) (db : Db)
      → Lacks b'|' type_name
      → loc.offset < 2 ^ 64
      → parse_decl (type_name ++ codes ";") ≡ some t
      → All (λ pc. elem pc loc.pc ≡ true) pcs
      → Typed func loc.space_name t loc.offset (save_type api func loc type_name db) pcs
  Typed-save_type func loc type_name t [] db bar fits parsed defined = tt
  Typed-save_type func loc type_name t (pc ∷ pcs) db bar fits parsed (d, defined) = (
    find_type-save_type api parse_decl func loc type_name pc db bar fits d
        ∙ ap (λ o. Saved.Outcome.returns o (some loc.offset)) parsed,
    Typed-save_type func loc type_name t pcs db bar fits parsed defined,
  )

  -- After a type whose name has no bar is saved for a location on the stack, or a constant, with
  -- a 64-bit offset, where IDA parses the name, the type manager has the type and the local scope
  -- has no symbol there, the action over any of the location's definition addresses, at least
  -- one, adds one symbol of the type and locks it, however many they are.
  pub load_vars-save_type :
      (func : ℕ) (loc : MemoryLocation) (type_name : Bytes) (t : T) (d : D) (pc : ℕ) (pcs : List ℕ)
      (db : Db) (fs fs' : FS) (s : S)
      → Lacks b'|' type_name
      → loc.offset < 2 ^ 64
      → searched loc.space_name ≡ codes "stack"
      → parse_decl (type_name ++ codes ";") ≡ some t
      → find t fs ≡ (ok d, fs')
      → All (λ pc'. elem pc' loc.pc ≡ true) (pc ∷ pcs)
      → scope.find_addr (codes "stack") loc.offset none s ≡ none
      → let r =
          load_vars api parse_decl find scope unset func loc.space_name
            (pc ∷ pcs)
            (save_type api func loc type_name db)
            fs
            s in
        (r.0 ≡ none) × (r.2 ≡ fs') × (r.3 ≡ with_symbol d loc.offset s)
  load_vars-save_type func loc type_name t d pc pcs db fs fs' s bar fits stacked parsed typed
        defined missing =
      let saved : Db = save_type api func loc type_name db in
      let (e, rest) = Typed-save_type func loc type_name t (pc ∷ pcs) db bar fits parsed defined in
      let (y, found) = with_symbol-found d loc.offset s in
      subst (λ r. Leaves r fs' (with_symbol d loc.offset s))
        (sym (
          load_vars-step func loc.space_name pc pcs _ saved fs fs' s (with_symbol d loc.offset s) e
            (load_at-added loc.space_name pc loc.offset t d fs fs' s stacked missing typed)))
        (load_vars-kept func loc.space_name t loc.offset y pcs
          (find_type api parse_decl func pc loc.space_name saved).1 fs' (with_symbol d loc.offset s)
          stacked found (Typed-next func loc.space_name t loc.offset pc saved pcs rest))
