-- ===== src/Session/Store.antt =====
-- What a session promises: a table of names and one of types, without nodes, texts or searches.
use yagi.Common.{ℕ, ◌^◌, ◌<◌, ◌≡◌, true, List, [], ◌∷◌, Option, none, some, Bytes, Lacks}
use yagi.Symbol.Saved.Tables.{assigned}
use yagi.Plugin.Keyboard.Change.{Change, nothing, named, typed, cleared, change_of}
use yagi.Session.{Event, press, apply}

-- What is known of a function's variable in a space, defined at a program counter: a text, and
-- the offset.
abbrev pub Table : Type 0
Table = ℕ → Bytes → ℕ → Option (Bytes × ℕ)

pub record Store : Type 0 where
  pub names : Table
  pub types : Table

abbrev pub empty_store : Store
empty_store = record { names = λ func space pc. none; types = λ func space pc. none }

abbrev pub change_store : Change → Store → Store
change_store nothing σ = σ
change_store (named func loc name) σ = record σ {
  names = assigned func loc (some (name, loc.offset)) σ.names;
}
change_store (typed func loc type_name) σ = record σ {
  types = assigned func loc (some (type_name, loc.offset)) σ.types;
}
change_store (cleared func loc) σ = record σ { types = assigned func loc none σ.types }

abbrev pub event_change : {FS S : Type 0} → Event FS S → Change
event_change (press p) = change_of p.ida p.ea p.symbols p.key p.shift p.keyword
event_change (apply func action seen) = nothing

-- The tables after the events of a session.
abbrev pub store_after : {FS S : Type 0} → List (Event FS S) → Store → Store
store_after [] σ = σ
store_after (e ∷ events) σ = store_after events (change_store (event_change e) σ)

-- The texts that a change saves have no bar, and the offsets have 64 bits.
abbrev pub Plain : Change → Type 0
Plain nothing = true ≡ true
Plain (named func loc name) = Lacks b'|' name × (loc.offset < 2 ^ 64)
Plain (typed func loc type_name) = Lacks b'|' type_name × (loc.offset < 2 ^ 64)
Plain (cleared func loc) = true ≡ true

abbrev pub PlainEvent : {FS S : Type 0} → Event FS S → Type 0
PlainEvent e = Plain (event_change e)
