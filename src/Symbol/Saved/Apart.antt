-- ===== src/Symbol/Saved/Apart.antt =====
-- What is saved or cleared for one location, and the searches for another one.
use yagi.Common.{refl, ℕ, ◌≡◌, false, ◌&&◌, Option, Bytes, ◌==◌, bytes_eq}
use yagi.Symbol.Netnode.{NetnodeApi}
use yagi.Symbol.Nodes.{yagitype}
use yagi.Symbol.Location.{MemoryLocation}
use yagi.Symbol.Saved.{find_name, find_type, save_name, save_type, clear_type}
use yagi.Symbol.Saved.Laws.{elem, valstr-save_each, find_name-save_name_other}
use yagi.Symbol.Saved.Clear.{find_type-clear_type_other}

module _ (api : NetnodeApi) where
  open api use {Db, valstr-open_node}

  find_type-save_type_other :
      {T : Type 0} (parse_decl : Bytes → Option T) (func func' : ℕ) (loc : MemoryLocation)
      (name space : Bytes) (pc : ℕ) (db : Db)
      → (func == func' && (bytes_eq loc.space_name space && elem pc loc.pc)) ≡ false
      → (find_type api parse_decl func' pc space (save_type api func loc name db)).0
        ≡ (find_type api parse_decl func' pc space db).0
  unfolding find_type save_type
  find_type-save_type_other parse_decl func func' loc name space pc db other =
      let held =
        valstr-save_each api yagitype yagitype func func' loc.offset loc.space_name space loc.pc pc
          name db in
      rw (valstr-open_node, held, other, valstr-open_node)

  -- A search makes a node at most, which is no value.
  pub find_type-find_type :
      {T : Type 0} (parse_decl : Bytes → Option T) (func : ℕ) (space : Bytes) (pc pc' : ℕ) (db : Db)
      → (find_type api parse_decl func pc' space (find_type api parse_decl func pc space db).1).0
        ≡ (find_type api parse_decl func pc' space db).0
  unfolding find_type
  find_type-find_type parse_decl func space pc pc' db =
      rw (valstr-open_node, valstr-open_node, valstr-open_node) refl

  -- For another function, space or program counter, saving a name for a location leaves the
  -- result of each search for a name, and saving or clearing a type leaves that of each search
  -- for a type.
  pub find_elsewhere :
      {T : Type 0} (parse_decl : Bytes → Option T) (func func' : ℕ) (loc : MemoryLocation)
      (name space : Bytes) (pc : ℕ) (db : Db)
      → (func == func' && (bytes_eq loc.space_name space && elem pc loc.pc)) ≡ false
      → ((find_name api func' pc space (save_name api func loc name db)).0
          ≡ (find_name api func' pc space db).0)
        × ((find_type api parse_decl func' pc space (save_type api func loc name db)).0
            ≡ (find_type api parse_decl func' pc space db).0)
        × ((find_type api parse_decl func' pc space (clear_type api func loc db).1).0
            ≡ (find_type api parse_decl func' pc space db).0)
  find_elsewhere parse_decl func func' loc name space pc db other = (
    find_name-save_name_other api func func' loc name space pc db other,
    find_type-save_type_other parse_decl func func' loc name space pc db other,
    find_type-clear_type_other api parse_decl func func' loc space pc db other,
  )
