-- ===== src/Session/Order.antt =====
-- Keys that change different variables can be pressed in either order.
use yagi.Common.{
  ℕ, ◌≡◌, refl, sym, subst, ap, ◌∙◌, Bool, true, false, ◌&&◌, List, ◌∷◌, All, Option, none, some,
  arith, Bytes, if◌then◌else◌,
}
use yagi.Symbol.Netnode.{NetnodeApi}
use yagi.Symbol.Saved.Tables.{covers, names_in, types_in}
use yagi.Plugin.Keyboard.Change.{Change, nothing, named, typed, cleared}
use yagi.Action.LoadScope.{LocalScope}
use yagi.Types.Manager.Monad.{M}
use yagi.Session.{Event, session}
use yagi.Session.Store.{Store, change_store, event_change, store_after, PlainEvent}
use yagi.Session.Represented.{Represents, session-Represents}
use yagi.Session.Last.{names_at}

-- Does the change save or clear the type of such a variable?
abbrev pub types_at : ℕ → Bytes → ℕ → Change → Bool
types_at func space pc (typed func' loc type_name) = covers func' loc func space pc
types_at func space pc (cleared func' loc) = covers func' loc func space pc
types_at func space pc nothing = false
types_at func space pc (named func' loc name) = false

-- No name and no type is changed by both.
abbrev pub Apart : Change → Change → Type 0
Apart c c' =
    (func : ℕ) (space : Bytes) (pc : ℕ)
    → ((names_at func space pc c && names_at func space pc c') ≡ false)
      × ((types_at func space pc c && types_at func space pc c') ≡ false)

abbrev entry_of : Change → Option (Bytes × ℕ)
entry_of (named func loc name) = some (name, loc.offset)
entry_of (typed func loc type_name) = some (type_name, loc.offset)
entry_of (cleared func loc) = none
entry_of nothing = none

change_store-names :
    (c : Change) (σ : Store) (func : ℕ) (space : Bytes) (pc : ℕ)
    → (change_store c σ).names func space pc
      ≡ (if names_at func space pc c then entry_of c else σ.names func space pc)
change_store-names nothing σ func space pc = refl
change_store-names (named func' loc name) σ func space pc = refl
change_store-names (typed func' loc name) σ func space pc = refl
change_store-names (cleared func' loc) σ func space pc = refl

change_store-types :
    (c : Change) (σ : Store) (func : ℕ) (space : Bytes) (pc : ℕ)
    → (change_store c σ).types func space pc
      ≡ (if types_at func space pc c then entry_of c else σ.types func space pc)
change_store-types nothing σ func space pc = refl
change_store-types (named func' loc name) σ func space pc = refl
change_store-types (typed func' loc name) σ func space pc = refl
change_store-types (cleared func' loc) σ func space pc = refl

if-if :
    {A : Type 0} (b b' : Bool) (x x' y : A)
    → (b && b') ≡ false
    → (if b then x else (if b' then x' else y)) ≡ (if b' then x' else (if b then x else y))
if-if true true x x' y h = ground arith
if-if true false x x' y h = refl
if-if false b' x x' y h = refl

names-swapped :
    (c c' : Change) (σ : Store) (func : ℕ) (space : Bytes) (pc : ℕ)
    → (names_at func space pc c && names_at func space pc c') ≡ false
    → (change_store c (change_store c' σ)).names func space pc
      ≡ (change_store c' (change_store c σ)).names func space pc
names-swapped c c' σ func space pc h =
    rw
      (
        change_store-names c (change_store c' σ),
        change_store-names c' σ,
        change_store-names c' (change_store c σ),
        change_store-names c σ,
      )
      (if-if (names_at func space pc c) (names_at func space pc c') (entry_of c) (entry_of c')
        (σ.names func space pc) h)

types-swapped :
    (c c' : Change) (σ : Store) (func : ℕ) (space : Bytes) (pc : ℕ)
    → (types_at func space pc c && types_at func space pc c') ≡ false
    → (change_store c (change_store c' σ)).types func space pc
      ≡ (change_store c' (change_store c σ)).types func space pc
types-swapped c c' σ func space pc h =
    rw
      (
        change_store-types c (change_store c' σ),
        change_store-types c' σ,
        change_store-types c' (change_store c σ),
        change_store-types c σ,
      )
      (if-if (types_at func space pc c) (types_at func space pc c') (entry_of c) (entry_of c')
        (σ.types func space pc) h)

-- The tables are functions, equal where their entries are.
change_store-swapped :
    (c c' : Change) (σ : Store)
    → Apart c c'
    → change_store c (change_store c' σ) ≡ change_store c' (change_store c σ)
change_store-swapped c c' σ apart i = record {
  names = λ func space pc. names-swapped c c' σ func space pc (apart func space pc).0 i;
  types = λ func space pc. types-swapped c c' σ func space pc (apart func space pc).1 i;
}

module _ (api : NetnodeApi) {T D FS : Type 0} (parse_decl : Bytes → Option T) (find : T → M FS D)
    (scope : LocalScope D) where
  open api use {Db}

  Represents-same :
      (db db' : Db) (σ : Store) (func : ℕ) (space : Bytes) (pc : ℕ)
      → Represents api parse_decl db σ
      → Represents api parse_decl db' σ
      → (names_in api db func space pc ≡ names_in api db' func space pc)
        × (types_in api parse_decl db func space pc ≡ types_in api parse_decl db' func space pc)
  Represents-same db db' σ func space pc h h' = (
    h.names_are func space pc ∙ sym (h'.names_are func space pc),
    h.types_are func space pc ∙ sym (h'.types_are func space pc),
  )

  -- Where every search of a database returns what a table of names and one of types have, and the
  -- keys save texts without a bar and 64-bit offsets, two events of a session one after the other
  -- that change no common name and no common type, as a key on one variable and a key on another,
  -- can be exchanged: after whatever follows them, every search for a name or a type returns the
  -- same.
  pub session-swapped :
      (e e' : Event FS scope.S) (events : List (Event FS scope.S)) (σ : Store) (db : Db) (func : ℕ)
      (space : Bytes) (pc : ℕ)
      → PlainEvent e
      → PlainEvent e'
      → All PlainEvent events
      → Represents api parse_decl db σ
      → Apart (event_change e) (event_change e')
      → let one = session api parse_decl find scope (e ∷ e' ∷ events) db in
        let other = session api parse_decl find scope (e' ∷ e ∷ events) db in
        (names_in api one func space pc ≡ names_in api other func space pc)
        × (types_in api parse_decl one func space pc ≡ types_in api parse_decl other func space pc)
  session-swapped e e' events σ db func space pc plain plain' rest h apart =
      let one : Db = session api parse_decl find scope (e ∷ e' ∷ events) db in
      let shows =
        session-Represents api parse_decl find scope (e ∷ e' ∷ events) σ db (plain, (plain', rest))
          h in
      let shows' =
        session-Represents api parse_decl find scope (e' ∷ e ∷ events) σ db (plain', (plain, rest))
          h in
      let same =
        ap (store_after events) (change_store-swapped (event_change e) (event_change e') σ apart) in
      Represents-same one _ (store_after events _) func space pc
        (subst (Represents api parse_decl one) (sym same) shows) shows'
