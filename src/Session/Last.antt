-- ===== src/Session/Last.antt =====
-- The name that is saved last, and the name that is given last.
use yagi.Common.{
  ℕ, ◌≡◌, refl, sym, ap, ◌∙◌, Bool, true, false, List, [], ◌∷◌, ◌++◌, All, Option, none, some,
  Bytes, ◌==◌, ==_refl, bytes_eq_refl, if◌then◌else◌, append_assoc,
}
use yagi.Symbol.Location.{MemoryLocation}
use yagi.Symbol.Netnode.{NetnodeApi}
use yagi.Symbol.Frame.{Frame}
use yagi.Symbol.Saved.Laws.{elem}
use yagi.Symbol.Saved.Tables.{covers}
use yagi.Plugin.Keyboard.Change.{Change, nothing, named, typed, cleared}
use yagi.Action.Rename.{Renaming, rename_symbol, lock_name, searched, rename_vars}
use yagi.Action.Rename.Table.{entry_renamings, table_renamings}
use yagi.Action.SyncStack.{SymbolEntry, sync_stack_vars}
use yagi.Action.LoadScope.{LocalScope}
use yagi.Types.Manager.Monad.{M}
use yagi.Session.{Event, session}
use yagi.Session.Store.{Store, change_store, event_change, store_after, PlainEvent}
use yagi.Session.Represented.{Represents}
use yagi.Session.Renamed.{rename_vars-session}

-- Does the change name a variable of the function that the space has at the program counter?
abbrev pub names_at : ℕ → Bytes → ℕ → Change → Bool
names_at func space pc (named func' loc name) = covers func' loc func space pc
names_at func space pc nothing = false
names_at func space pc (typed func' loc type_name) = false
names_at func space pc (cleared func' loc) = false

change_store-kept :
    (func : ℕ) (space : Bytes) (pc : ℕ) (c : Change) (σ : Store)
    → names_at func space pc c ≡ false
    → (change_store c σ).names func space pc ≡ σ.names func space pc
change_store-kept func space pc nothing σ h = refl
change_store-kept func space pc (named func' loc name) σ h = rw h refl
change_store-kept func space pc (typed func' loc type_name) σ h = refl
change_store-kept func space pc (cleared func' loc) σ h = refl

change_store-named :
    (func : ℕ) (loc : MemoryLocation) (name : Bytes) (pc : ℕ) (c : Change) (σ : Store)
    → c ≡ named func loc name
    → elem pc loc.pc ≡ true
    → (change_store c σ).names func loc.space_name pc ≡ some (name, loc.offset)
change_store-named func loc name pc c σ e defined =
    rw (e, ==_refl func, bytes_eq_refl loc.space_name, defined) refl

module _ {FS S : Type 0} where
  -- None of the events names it.
  abbrev pub Unnamed : ℕ → Bytes → ℕ → List (Event FS S) → Type 0
  Unnamed func space pc = All (λ e. names_at func space pc (event_change e) ≡ false)

  store_after-kept :
      (func : ℕ) (space : Bytes) (pc : ℕ) (events : List (Event FS S)) (σ : Store)
      → Unnamed func space pc events
      → (store_after events σ).names func space pc ≡ σ.names func space pc
  store_after-kept func space pc [] σ h = refl
  store_after-kept func space pc (e ∷ events) σ (h, rest) =
      store_after-kept func space pc events (change_store (event_change e) σ) rest
      ∙ change_store-kept func space pc (event_change e) σ h

  store_after-append :
      (before after : List (Event FS S)) (σ : Store)
      → store_after (before ++ after) σ ≡ store_after after (store_after before σ)
  store_after-append [] after σ = refl
  store_after-append (e ∷ before) after σ =
      store_after-append before after (change_store (event_change e) σ)

  store_after-last :
      (func : ℕ) (loc : MemoryLocation) (name : Bytes) (pc : ℕ) (before after : List (Event FS S))
      (e : Event FS S) (σ : Store)
      → event_change e ≡ named func loc name
      → elem pc loc.pc ≡ true
      → Unnamed func loc.space_name pc after
      → (store_after (before ++ e ∷ after) σ).names func loc.space_name pc ≡ some (name, loc.offset)
  store_after-last func loc name pc before after e σ asks defined rest =
      ap (λ σ'. σ'.names func loc.space_name pc) (store_after-append before (e ∷ after) σ)
      ∙ store_after-kept func loc.space_name pc after _ rest
      ∙ change_store-named func loc name pc (event_change e) (store_after before σ) asks defined

-- The name that renamings give a symbol: the last one.
abbrev pub given_name : ℕ → List Renaming → Option Bytes → Option Bytes
given_name symbol [] name = name
given_name symbol (rename_symbol symbol' name' ∷ renamings) name =
    given_name symbol renamings (if symbol == symbol' then some name' else name)
given_name symbol (lock_name symbol' ∷ renamings) name = given_name symbol renamings name

given_name-append :
    (symbol : ℕ) (xs ys : List Renaming) (name : Option Bytes)
    → given_name symbol (xs ++ ys) name ≡ given_name symbol ys (given_name symbol xs name)
given_name-append symbol [] ys name = refl
given_name-append symbol (rename_symbol symbol' name' ∷ xs) ys name =
    given_name-append symbol xs ys (if symbol == symbol' then some name' else name)
given_name-append symbol (lock_name symbol' ∷ xs) ys name = given_name-append symbol xs ys name

module _ (find_addr : Bytes → ℕ → ℕ → Option ℕ) where
  -- The renamings for these operations leave the symbol a name that it has.
  abbrev pub LeavesName : ℕ → Bytes → (ℕ → Option (Bytes × ℕ)) → Bytes → List ℕ → Type 0
  LeavesName symbol name table space = All (λ pc.
      given_name symbol (entry_renamings find_addr space pc (table pc)) (some name) ≡ some name)

  table_renamings-append :
      (table : ℕ → Option (Bytes × ℕ)) (space : Bytes) (pcs pcs' : List ℕ)
      → table_renamings find_addr table space (pcs ++ pcs')
        ≡ table_renamings find_addr table space pcs ++ table_renamings find_addr table space pcs'
  table_renamings-append table space [] pcs' = refl
  table_renamings-append table space (pc ∷ pcs) pcs' =
      let here = entry_renamings find_addr space pc (table pc) in
      ap (◌++◌ here) (table_renamings-append table space pcs pcs')
      ∙ sym (append_assoc here (table_renamings find_addr table space pcs) _)

  given_name-left :
      (symbol : ℕ) (name : Bytes) (table : ℕ → Option (Bytes × ℕ)) (space : Bytes) (pcs : List ℕ)
      → LeavesName symbol name table space pcs
      → given_name symbol (table_renamings find_addr table space pcs) (some name) ≡ some name
  given_name-left symbol name table space [] h = refl
  given_name-left symbol name table space (pc ∷ pcs) (h, rest) =
      let here = entry_renamings find_addr space pc (table pc) in
      given_name-append symbol here (table_renamings find_addr table space pcs) (some name)
      ∙ ap (given_name symbol (table_renamings find_addr table space pcs)) h
      ∙ given_name-left symbol name table space pcs rest

  given_name-entry :
      (symbol : ℕ) (name space : Bytes) (pc offset : ℕ) (entry : Option (Bytes × ℕ))
      (old : Option Bytes)
      → entry ≡ some (name, offset)
      → find_addr (searched space) offset pc ≡ some symbol
      → given_name symbol (entry_renamings find_addr space pc entry) old ≡ some name
  given_name-entry symbol name space pc offset entry old e seen = rw (e, seen, ==_refl symbol) refl

  -- What stands before the operation has no part in the name.
  given_name-table :
      (symbol : ℕ) (name space : Bytes) (table : ℕ → Option (Bytes × ℕ)) (pc offset : ℕ)
      (before after : List ℕ) (old : Option Bytes)
      → table pc ≡ some (name, offset)
      → find_addr (searched space) offset pc ≡ some symbol
      → LeavesName symbol name table space after
      → given_name symbol (table_renamings find_addr table space (before ++ pc ∷ after)) old
        ≡ some name
  given_name-table symbol name space table pc offset before after old e seen rest =
      let here = entry_renamings find_addr space pc (table pc) in
      let behind = table_renamings find_addr table space after in
      ap (λ l. given_name symbol l old) (table_renamings-append table space before (pc ∷ after))
      ∙ given_name-append symbol (table_renamings find_addr table space before) (here ++ behind) old
      ∙ given_name-append symbol here behind _
      ∙ ap (given_name symbol behind) (given_name-entry symbol name space pc offset _ _ e seen)
      ∙ given_name-left symbol name table space after rest

  module _ (api : NetnodeApi) {T D FS : Type 0} (parse_decl : Bytes → Option T) (find : T → M FS D)
      (scope : LocalScope D) where
    open api use {Db}

    -- Where every search of a database returns what a table of names and one of types have, after
    -- any session on it whose keys save texts without a bar and 64-bit offsets, if the last event
    -- that names a variable at a program counter gives it a name, where the local scope has a
    -- symbol at its offset, and no later operation gives that symbol another name, the symbol has
    -- that name after the names of the frame and then the saved names of the space are given,
    -- whatever the frame has.
    pub given_name-last :
        (earlier later : List (Event FS scope.S)) (e : Event FS scope.S) (σ : Store) (db : Db)
        (func : ℕ) (loc : MemoryLocation) (name : Bytes) (frame : Option Frame)
        (entries : List SymbolEntry) (unset pc symbol : ℕ) (before after : List ℕ)
        → All PlainEvent (earlier ++ e ∷ later)
        → Represents api parse_decl db σ
        → event_change e ≡ named func loc name
        → Unnamed func loc.space_name pc later
        → elem pc loc.pc ≡ true
        → find_addr (searched loc.space_name) loc.offset pc ≡ some symbol
        → LeavesName symbol name
            ((store_after (earlier ++ e ∷ later) σ).names func loc.space_name)
            loc.space_name
            after
        → let saved = session api parse_decl find scope (earlier ++ e ∷ later) db in
          let renamings =
            (rename_vars api find_addr unset func loc.space_name (before ++ pc ∷ after) saved).1 in
          given_name symbol (sync_stack_vars frame entries ++ renamings) none ≡ some name
    given_name-last earlier later e σ db func loc name frame entries unset pc symbol before after
          plain h asks unnamed defined seen rest =
        let events = earlier ++ e ∷ later in
        let table = (store_after events σ).names func loc.space_name in
        ap (λ l. given_name symbol (sync_stack_vars frame entries ++ l) none)
          (rename_vars-session api parse_decl find scope events σ db find_addr unset func
            loc.space_name (before ++ pc ∷ after) plain h).1
        ∙ given_name-append symbol (sync_stack_vars frame entries) _ none
        ∙ given_name-table symbol name loc.space_name table pc loc.offset before after _
            (store_after-last func loc name pc earlier later e σ asks defined unnamed) seen rest
