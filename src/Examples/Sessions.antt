-- ===== src/Examples/Sessions.antt =====
-- A session at concrete inputs: a name is saved, a decompilation renames, a type is saved.
use yagi.Common.{
  false, ℕ, ◌≡◌, refl, List, [], ◌∷◌, ◌++◌, All, Option, none, some, arith, Bytes, codes,
}
use yagi.Common.Maps.{lookup}
use yagi.Architecture.{rename_var}
use yagi.Action.Rename.{searched, rename_vars}
use yagi.Action.Rename.Table.{table_renamings}
use yagi.Action.SyncStack.{sync_stack_vars}
use yagi.Symbol.Saved.Tables.{names_in, types_in}
use yagi.Action.LoadScope.{load_vars}
use yagi.Action.LoadScope.Table.{is_search, load_table}
use yagi.Plugin.Keyboard.{Ida}
use yagi.Session.{Seen, Event, press, apply, session}
use yagi.Session.Store.{empty_store, store_after, PlainEvent}
use yagi.Session.Represented.{Represents, session-Represents}
use yagi.Session.Renamed.{Represents-empty_store, rename_vars-session, load_vars-session}
use yagi.Session.Last.{given_name, given_name-last}
use yagi.Session.Order.{session-swapped}
use yagi.Examples.Database.{memory, empty_db, ida}
use yagi.Examples.Keys.{rax, symbols}
use yagi.Examples.Factory.{NamedType}
use yagi.Examples.Retyped.{parse_list, find_list, types_at, nothing_typed}

-- A user who declares a pointer to a list.
abbrev user : Ida
user = record ida { parse_decl = λ text. some (codes "list *") }

-- A key on the variable in `rax`, in the function at 4096.
abbrev on_rax : ℕ → Event (List NamedType) types_at.S
on_rax key = press record {
  ida = user;
  ea = 4096;
  symbols = symbols;
  key = key;
  shift = 0;
  keyword = some (codes "uVar1");
}

-- One symbol, at the offset of `rax`.
abbrev symbol_at : Bytes → ℕ → ℕ → Option ℕ
symbol_at space offset pc = some offset

abbrev seen : Seen (List NamedType) types_at.S
seen = record {
  pcs = 4100 ∷ [];
  find_addr = symbol_at;
  unset = 0;
  factory = [];
  local = nothing_typed;
}

abbrev renaming : Event (List NamedType) types_at.S
renaming = apply 4096 (rename_var (codes "register")) seen

abbrev events : List (Event (List NamedType) types_at.S)
events = on_rax b'N' ∷ renaming ∷ on_rax b'Y' ∷ []

plain : All PlainEvent events
unfolding lookup
plain = ((ground arith, omega arith), (refl, ((ground arith, omega arith), tt)))

blank : Represents memory parse_list empty_db empty_store
blank = Represents-empty_store memory parse_list empty_db (λ k. refl)

abbrev after_events : Bytes → Bytes
after_events = session memory parse_list find_list types_at events empty_db

session-Represents_example :
    Represents memory parse_list after_events (store_after events empty_store)
session-Represents_example =
    session-Represents memory parse_list find_list types_at events empty_store empty_db plain blank

rename_vars-session_example :
    let r =
      rename_vars memory symbol_at 0 4096 (codes "register") (4100 ∷ 4104 ∷ []) after_events in
    (r.0 ≡ none)
    × (r.1
        ≡ table_renamings symbol_at
            ((store_after events empty_store).names 4096 (codes "register"))
            (codes "register")
            (4100 ∷ 4104 ∷ []))
rename_vars-session_example =
    rename_vars-session memory parse_list find_list types_at events empty_store empty_db symbol_at 0
      4096 (codes "register") (4100 ∷ 4104 ∷ []) plain blank

load_vars-session_example :
    let r =
      load_vars memory parse_list find_list types_at 0 4096
        (codes "register")
        (4100 ∷ 4104 ∷ [])
        after_events
        []
        nothing_typed in
    let l =
      load_table parse_list find_list types_at
        ((store_after events empty_store).types 4096 (codes "register"))
        (codes "register")
        (4100 ∷ 4104 ∷ [])
        []
        nothing_typed in
    (is_search r.0 ≡ false) × (r.0 ≡ l.0) × (r.2 ≡ l.1) × (r.3 ≡ l.2)
load_vars-session_example =
    load_vars-session memory parse_list find_list types_at events empty_store empty_db 0 4096
      (codes "register") (4100 ∷ 4104 ∷ []) [] nothing_typed plain blank

given_name-last_example :
    given_name 16
      (sync_stack_vars none []
        ++ (rename_vars memory symbol_at 0 4096
            (codes "register")
            (4100 ∷ 4104 ∷ [])
            after_events).1)
      none
    ≡ some (codes "count")
unfolding lookup searched
given_name-last_example =
    given_name-last symbol_at memory parse_list find_list types_at [] (renaming ∷ on_rax b'Y' ∷ [])
      (on_rax b'N') empty_store empty_db 4096 rax (codes "count") none [] 0 4100 16 [] (4104 ∷ [])
      plain blank refl (refl, (refl, tt)) refl refl (refl, tt)

-- A name and the type of the same variable.
abbrev named_typed : Bytes → Bytes
named_typed =
    session memory parse_list find_list types_at (on_rax b'N' ∷ on_rax b'Y' ∷ renaming ∷ [])
      empty_db

abbrev typed_named : Bytes → Bytes
typed_named =
    session memory parse_list find_list types_at (on_rax b'Y' ∷ on_rax b'N' ∷ renaming ∷ [])
      empty_db

session-swapped_example :
    (names_in memory named_typed 4096 (codes "register") 4100
      ≡ names_in memory typed_named 4096 (codes "register") 4100)
    × (types_in memory parse_list named_typed 4096 (codes "register") 4100
        ≡ types_in memory parse_list typed_named 4096 (codes "register") 4100)
unfolding lookup
session-swapped_example =
    session-swapped memory parse_list find_list types_at (on_rax b'N') (on_rax b'Y') (renaming ∷ [])
      empty_store empty_db 4096 (codes "register") 4100 (ground arith, omega arith)
      (ground arith, omega arith) (refl, tt) blank (λ func space pc. (ground arith, ground arith))
