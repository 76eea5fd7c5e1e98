-- ===== src/Session/Represented.antt =====
-- The netnodes of a session stand for two tables, whatever keys and actions it consists of.
use yagi.Common.{
  ℕ, ◌≡◌, refl, sym, ◌∙◌, List, [], ◌∷◌, All, Option, none, some, Bytes, inl, inr, subst,
  Bool-cases,
}
use yagi.Symbol.Location.{MemoryLocation}
use yagi.Symbol.Netnode.{NetnodeApi}
use yagi.Symbol.Saved.{Outcome, build_type}
use yagi.Symbol.Saved.Laws.{find_type-save_name}
use yagi.Symbol.Saved.Clear.{find_name-clear_type}
use yagi.Symbol.Saved.Tables.{
  shown, covers, assigned, names_in, types_in, names_in-save_name, names_in-open_node,
  types_in-open_node, types_in-save_type, types_in-clear_type,
}
use yagi.Plugin.Keyboard.Change.{Change, nothing, named, typed, cleared, commit, keyboard-commit}
use yagi.Action.Rename.Nodes.{rename_vars_keeps}
use yagi.Action.LoadScope.{LocalScope}
use yagi.Action.LoadScope.Nodes.{load_vars_keeps}
use yagi.Architecture.{YagiAction, rename_var, load_local_scope}
use yagi.Types.Manager.Monad.{M}
use yagi.Session.{Seen, Event, press, apply, apply_action, step, session}
use yagi.Session.Store.{Store, change_store, event_change, store_after, Plain, PlainEvent}

-- Assigning commutes with a function on the entries.
assigned-ap :
    {A B : Type 0} (f : A → B) (func func' pc : ℕ) (loc : MemoryLocation) (v : A) (space : Bytes)
    (table : ℕ → Bytes → ℕ → A) (table' : ℕ → Bytes → ℕ → B)
    → table' func' space pc ≡ f (table func' space pc)
    → assigned func loc (f v) table' func' space pc ≡ f (assigned func loc v table func' space pc)
assigned-ap f func func' pc loc v space table table' h =
    elim (Bool-cases (covers func loc func' space pc)) [ inl e ↦ rw e refl | inr e ↦ rw e h ]

module _ (api : NetnodeApi) {T : Type 0} (parse_decl : Bytes → Option T) where
  open api use {Db}

  abbrev pub read : Option (Bytes × ℕ) → Outcome T
  read v = build_type api parse_decl (shown v)

  -- Every search returns what the table has.
  pub record Represents (db : Db) (σ : Store) : Type 0 where
    pub names_are :
        (func : ℕ) (space : Bytes) (pc : ℕ)
        → names_in api db func space pc ≡ shown (σ.names func space pc)
    pub types_are :
        (func : ℕ) (space : Bytes) (pc : ℕ)
        → types_in api parse_decl db func space pc ≡ read (σ.types func space pc)

  Represents-open_node :
      (σ : Store) (n : Bytes) (db : Db) → Represents db σ → Represents (api.open_node n db) σ
  Represents-open_node σ n db h = record {
    names_are =
        λ func space pc. names_in-open_node api n space func pc db ∙ h.names_are func space pc;
    types_are = λ func space pc.
        types_in-open_node api parse_decl n space func pc db ∙ h.types_are func space pc;
  }

  Represents-commit :
      (c : Change) (σ : Store) (db : Db)
      → Plain c
      → Represents db σ
      → Represents (commit api c db) (change_store c σ)
  Represents-commit nothing σ db plain h = h
  Represents-commit (named func loc name) σ db (bar, fits) h = record {
    names_are = λ func' space pc.
        names_in-save_name api func func' pc loc name space db bar fits
        ∙ assigned-ap shown func func' pc loc (some (name, loc.offset)) space σ.names
            (names_in api db) (h.names_are func' space pc);
    types_are = λ func' space pc.
        (find_type-save_name api parse_decl func func' loc name space pc db).0
        ∙ h.types_are func' space pc;
  }
  Represents-commit (typed func loc type_name) σ db (bar, fits) h = record {
    names_are = λ func' space pc.
        (find_type-save_name api parse_decl func func' loc type_name space pc db).1
        ∙ h.names_are func' space pc;
    types_are = λ func' space pc.
        types_in-save_type api parse_decl func func' pc loc type_name space db bar fits
        ∙ assigned-ap read func func' pc loc (some (type_name, loc.offset)) space σ.types
            (types_in api parse_decl db) (h.types_are func' space pc);
  }
  Represents-commit (cleared func loc) σ db plain h = record {
    names_are = λ func' space pc.
        find_name-clear_type api func func' loc space pc db ∙ h.names_are func' space pc;
    types_are = λ func' space pc.
        types_in-clear_type api parse_decl func func' pc loc space db
        ∙ assigned-ap read func func' pc loc none space σ.types (types_in api parse_decl db)
            (h.types_are func' space pc);
  }

  module _ {D FS : Type 0} (find : T → M FS D) (scope : LocalScope D) where
    Represents-apply_action :
        (func : ℕ) (action : YagiAction) (seen : Seen FS scope.S) (σ : Store) (db : Db)
        → Represents db σ
        → Represents (apply_action api parse_decl find scope func action seen db) σ
    unfolding apply_action
    Represents-apply_action func (rename_var space) seen σ db h =
        rename_vars_keeps api seen.find_addr seen.unset (λ db'. Represents db' σ)
          (Represents-open_node σ) func space seen.pcs db h
    Represents-apply_action func (load_local_scope space) seen σ db h =
        load_vars_keeps api parse_decl find scope seen.unset (λ db'. Represents db' σ)
          (Represents-open_node σ) func space seen.pcs db seen.factory seen.local h
    Represents-apply_action func YagiAction.sync_stack_var seen σ db h = h
    Represents-apply_action func YagiAction.mips_t9_optimization seen σ db h = h
    Represents-apply_action func YagiAction.add_ebpf_syscall seen σ db h = h

    Represents-step :
        (e : Event FS scope.S) (σ : Store) (db : Db)
        → PlainEvent e
        → Represents db σ
        → Represents (step api parse_decl find scope e db) (change_store (event_change e) σ)
    unfolding step
    Represents-step (press p) σ db plain h =
        subst
          (λ db'. Represents db' (change_store (event_change {FS = FS} {S = scope.S} (press p)) σ))
          (sym (keyboard-commit api p.ida p.ea p.symbols p.key p.shift p.keyword db))
          (Represents-commit (event_change {FS = FS} {S = scope.S} (press p)) σ db plain h)
    Represents-step (apply func action seen) σ db plain h =
        Represents-apply_action func action seen σ db h

    -- Where every search of the database returns what a table of names and one of types have, it
    -- still does after any keys pressed in any views and any actions of any decompilations
    -- between them, with the tables that the keys alone have changed, if no text that a key saves
    -- has a bar and the offsets have 64 bits: a key N outside RAM gives the variable its name, Y
    -- its type, and C takes its type away, at its definition addresses, in its space and
    -- function, and nowhere else.
    pub session-Represents :
        (events : List (Event FS scope.S)) (σ : Store) (db : Db)
        → All PlainEvent events
        → Represents db σ
        → Represents (session api parse_decl find scope events db) (store_after events σ)
    unfolding session
    session-Represents [] σ db plain h = h
    session-Represents (e ∷ events) σ db (p, plain) h =
        session-Represents events (change_store (event_change e) σ)
          (step api parse_decl find scope e db) plain (Represents-step e σ db p h)
