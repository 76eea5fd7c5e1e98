-- ===== src/Symbol/Saved/Tables.antt =====
-- Each search after one save or one clearing, in terms of the same search before it.
use yagi.Common.{
  ℕ, ◌^◌, ◌<◌, ◌≡◌, refl, ap, Bool, false, ◌&&◌, Option, none, some, Bytes, codes, ◌++◌, [], Lacks,
  ◌==◌, bytes_eq, if◌then◌else◌, Bool-cases, inl, inr,
}
use yagi.Symbol.Netnode.{NetnodeApi}
use yagi.Symbol.Nodes.{yagireg, yagitype}
use yagi.Symbol.Location.{MemoryLocation}
use yagi.Symbol.Saved.{
  Outcome, returns, decode, build_type, find_name, find_type, save_name, save_type, clear_type,
}
use yagi.Symbol.Saved.Laws.{elem, decode-encode, valstr-save_each, find_name-save_name_other}
use yagi.Symbol.Saved.Apart.{find_elsewhere}
use yagi.Symbol.Saved.Clear.{valstr-clear_each}

-- Is it one of the location's definition addresses, in its space and its function?
abbrev pub covers : ℕ → MemoryLocation → ℕ → Bytes → ℕ → Bool
covers func loc func' space pc = func == func' && (bytes_eq loc.space_name space && elem pc loc.pc)

-- What a search returns for what is saved.
abbrev pub shown : Option (Bytes × ℕ) → Outcome Bytes
shown none = returns none none
shown (some (value, offset)) = returns (some value) (some offset)

-- Every save and every clearing assigns to what it covers.
abbrev pub assigned :
    {A : Type 0} → ℕ → MemoryLocation → A → (ℕ → Bytes → ℕ → A) → ℕ → Bytes → ℕ → A
assigned func loc v table func' space pc =
    if covers func loc func' space pc then v else table func' space pc

module _ (api : NetnodeApi) where
  open api use {Db, open_node, valstr, valstr-open_node}

  -- What the search for a name returns, everywhere.
  abbrev pub names_in : Db → ℕ → Bytes → ℕ → Outcome Bytes
  names_in db func space pc = (find_name api func pc space db).0

  pub names_in-open_node :
      (n space : Bytes) (func pc : ℕ) (db : Db)
      → names_in (open_node n db) func space pc ≡ names_in db func space pc
  unfolding find_name
  names_in-open_node n space func pc db =
      rw (valstr-open_node, valstr-open_node, valstr-open_node) refl

  pub names_in_blank :
      (db : Db) (func pc : ℕ) (space : Bytes)
      → ((k : Bytes) → valstr k db ≡ [])
      → names_in db func space pc ≡ shown none
  unfolding find_name decode
  names_in_blank db func pc space blank = rw (valstr-open_node, blank) refl

  pub names_in-save_name :
      (func func' pc : ℕ) (loc : MemoryLocation) (name space : Bytes) (db : Db)
      → Lacks b'|' name
      → loc.offset < 2 ^ 64
      → names_in (save_name api func loc name db) func' space pc
        ≡ assigned func loc (shown (some (name, loc.offset))) (names_in db) func' space pc
  unfolding find_name save_name
  names_in-save_name func func' pc loc name space db bar fits =
      elim (Bool-cases (covers func loc func' space pc)) [
        | inl e ↦
            rw
              (
                valstr-open_node,
                valstr-save_each api yagireg yagireg func func' loc.offset loc.space_name space
                    loc.pc pc name db,
                e,
              )
              (decode-encode name loc.offset bar fits)
        | inr e ↦ rw e (find_name-save_name_other api func func' loc name space pc db e)
      ]

  module _ {T : Type 0} (parse_decl : Bytes → Option T) where
    abbrev pub types_in : Db → ℕ → Bytes → ℕ → Outcome T
    types_in db func space pc = (find_type api parse_decl func pc space db).0

    -- What the search for a type returns for what is saved.
    abbrev pub read_type : Option (Bytes × ℕ) → Outcome T
    read_type none = returns none none
    read_type (some (type_name, offset)) =
        returns (parse_decl (type_name ++ codes ";")) (some offset)

    pub build_type-shown :
        (entry : Option (Bytes × ℕ)) → build_type api parse_decl (shown entry) ≡ read_type entry
    unfolding build_type
    build_type-shown none = refl
    build_type-shown (some (type_name, offset)) = refl

    -- A search opens a node, and does nothing else to the database.
    pub find_type_keeps :
        (func pc : ℕ) (space : Bytes) (P : Db → Type 0)
        → ((n : Bytes) (db : Db) → P db → P (open_node n db))
        → (db : Db) → P db
        → P (find_type api parse_decl func pc space db).1
    unfolding find_type
    find_type_keeps func pc space P opened db h = opened _ db h

    -- A node that is opened is no entry.
    pub types_in-open_node :
        (n space : Bytes) (func pc : ℕ) (db : Db)
        → types_in (open_node n db) func space pc ≡ types_in db func space pc
    unfolding find_type
    types_in-open_node n space func pc db =
        rw (valstr-open_node, valstr-open_node, valstr-open_node) refl

    pub types_in_blank :
        (db : Db) (func pc : ℕ) (space : Bytes)
        → ((k : Bytes) → valstr k db ≡ [])
        → types_in db func space pc ≡ build_type api parse_decl (shown none)
    unfolding find_type decode
    types_in_blank db func pc space blank = rw (valstr-open_node, blank) refl

    pub types_in-save_type :
        (func func' pc : ℕ) (loc : MemoryLocation) (name space : Bytes) (db : Db)
        → Lacks b'|' name
        → loc.offset < 2 ^ 64
        → types_in (save_type api func loc name db) func' space pc
          ≡ assigned func loc
              (build_type api parse_decl (shown (some (name, loc.offset))))
              (types_in db)
              func'
              space
              pc
    unfolding find_type save_type
    types_in-save_type func func' pc loc name space db bar fits =
        elim (Bool-cases (covers func loc func' space pc)) [
          | inl e ↦
              rw
                (
                  valstr-open_node,
                  valstr-save_each api yagitype yagitype func func' loc.offset loc.space_name space
                      loc.pc pc name db,
                  e,
                )
                (ap (build_type api parse_decl) (decode-encode name loc.offset bar fits))
          | inr e ↦ rw e (find_elsewhere api parse_decl func func' loc name space pc db e).1
        ]

    pub types_in-clear_type :
        (func func' pc : ℕ) (loc : MemoryLocation) (space : Bytes) (db : Db)
        → types_in (clear_type api func loc db).1 func' space pc
          ≡ assigned func loc (build_type api parse_decl (shown none)) (types_in db) func' space pc
    unfolding find_type clear_type decode
    types_in-clear_type func func' pc loc space db =
        elim (Bool-cases (covers func loc func' space pc)) [
          | inl e ↦ rw (
            valstr-open_node,
            valstr-clear_each api func func' loc.space_name space loc.pc pc yagitype false db,
            e,
          )
          | inr e ↦ rw e (find_elsewhere api parse_decl func func' loc [] space pc db e).2
        ]
