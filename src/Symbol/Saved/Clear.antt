-- ===== src/Symbol/Saved/Clear.antt =====
-- What `clearType` clears, and what it answers.
use yagi.Common.{
  ℕ, ◌≡◌, refl, ap₂, Bool, false, ◌&&◌, ◌||◌, List, [], ◌∷◌, Option, arith, Bytes, ◌==◌, bytes_eq,
  bytes_eq_refl, if◌then◌else◌, not,
}
use yagi.Symbol.Netnode.{NetnodeApi, is_empty}
use yagi.Symbol.Nodes.{Tag, yagireg, yagitype, node_name, same_tag, same_node, bytes_eq-node_name}
use yagi.Symbol.Location.{MemoryLocation}
use yagi.Symbol.Saved.{find_name, find_type, clear_type_at, clear_each, clear_type}
use yagi.Symbol.Saved.Laws.{elem}

module _ (api : NetnodeApi) where
  open api use {
    Db, open_node, valstr, set, delvalue, valstr-open_node, valstr-set, valstr-delvalue,
    delvalue-done,
  }

  valstr-clear_type_at :
      (f f' : ℕ) (s s' : Bytes) (pc pc' : ℕ) (t' : Tag) (db : Db)
      → valstr (node_name t' f' s' pc') (clear_type_at api f s pc db).1 ≡ (
          if same_node yagitype f s pc t' f' s' pc' then [] else valstr (node_name t' f' s' pc') db)
  unfolding clear_type_at
  valstr-clear_type_at f f' s s' pc pc' t' db =
      rw (valstr-delvalue, valstr-open_node, bytes_eq-node_name)

  -- After a clearing the nodes of the types are empty, and every other node holds what it held.
  pub valstr-clear_each :
      (f f' : ℕ) (s s' : Bytes) (pcs : List ℕ) (pc' : ℕ) (t' : Tag) (result : Bool) (db : Db)
      → valstr (node_name t' f' s' pc') (clear_each api f s pcs result db).1 ≡ (
          if same_tag yagitype t' && (f == f' && (bytes_eq s s' && elem pc' pcs))
          then []
          else valstr (node_name t' f' s' pc') db)
  unfolding clear_each
  valstr-clear_each f f' s s' [] pc' t' result db = ground arith
  valstr-clear_each f f' s s' (pc ∷ pcs) pc' t' result db =
      let step = valstr-clear_type_at f f' s s' pc pc' t' db in
      let (done, db') = clear_type_at api f s pc db in
      let rest = valstr-clear_each f f' s s' pcs pc' t' (result || done) db' in
      ground (arith, step, rest)

  -- Clearing the type of a location leaves the result of each search for a name.
  pub find_name-clear_type :
      (func func' : ℕ) (loc : MemoryLocation) (space : Bytes) (pc : ℕ) (db : Db)
      → (find_name api func' pc space (clear_type api func loc db).1).0
        ≡ (find_name api func' pc space db).0
  unfolding find_name clear_type
  find_name-clear_type func func' loc space pc db =
      let held = valstr-clear_each func func' loc.space_name space loc.pc pc yagireg false db in
      rw (valstr-open_node, held, valstr-open_node)

  -- Clearing the type of a location leaves the result of each search for a type with another
  -- function, space or program counter.
  pub find_type-clear_type_other :
      {T : Type 0} (parse_decl : Bytes → Option T) (func func' : ℕ) (loc : MemoryLocation)
      (space : Bytes) (pc : ℕ) (db : Db)
      → (func == func' && (bytes_eq loc.space_name space && elem pc loc.pc)) ≡ false
      → (find_type api parse_decl func' pc space (clear_type api func loc db).1).0
        ≡ (find_type api parse_decl func' pc space db).0
  unfolding find_type clear_type
  find_type-clear_type_other parse_decl func func' loc space pc db other =
      let held = valstr-clear_each func func' loc.space_name space loc.pc pc yagitype false db in
      rw (valstr-open_node, held, other, valstr-open_node)

  -- Has the node of the type at this definition address a value?
  pub has_type : ℕ → Bytes → ℕ → Db → Bool
  has_type func space pc db = not (is_empty (valstr (node_name yagitype func space pc) db))

  pub any_type : ℕ → Bytes → List ℕ → Db → Bool
  any_type func space [] db = false
  any_type func space (pc ∷ pcs) db = has_type func space pc db || any_type func space pcs db

  -- Clearing a node that has no value changes no value.
  has_type-clear_type_at :
      (f : ℕ) (s : Bytes) (pc pc' : ℕ) (db : Db)
      → has_type f s pc db ≡ false
      → has_type f s pc' (clear_type_at api f s pc db).1 ≡ has_type f s pc' db
  unfolding has_type
  has_type-clear_type_at f s pc pc' db h =
      ground (arith, valstr-clear_type_at f f s s pc pc' yagitype db, bytes_eq_refl s)

  any_type-clear_type_at :
      (f : ℕ) (s : Bytes) (pc : ℕ) (pcs : List ℕ) (db : Db)
      → has_type f s pc db ≡ false
      → any_type f s pcs (clear_type_at api f s pc db).1 ≡ any_type f s pcs db
  unfolding any_type
  any_type-clear_type_at f s pc [] db h = refl
  any_type-clear_type_at f s pc (pc' ∷ pcs) db h =
      ap₂ ◌||◌ (has_type-clear_type_at f s pc pc' db h) (any_type-clear_type_at f s pc pcs db h)

  done-has_type :
      (f : ℕ) (s : Bytes) (pc : ℕ) (db : Db) → (clear_type_at api f s pc db).0 ≡ has_type f s pc db
  unfolding clear_type_at has_type
  done-has_type f s pc db = rw (delvalue-done, valstr-open_node)

  clear_each-any_type :
      (f : ℕ) (s : Bytes) (pcs : List ℕ) (result : Bool) (db : Db)
      → (clear_each api f s pcs result db).0 ≡ (result || any_type f s pcs db)
  unfolding clear_each any_type
  clear_each-any_type f s [] result db = ground arith
  clear_each-any_type f s (pc ∷ pcs) result db =
      let (done, db') = clear_type_at api f s pc db in
      ground (
        arith,
        clear_each-any_type f s pcs (result || done) db',
        done-has_type f s pc db,
        any_type-clear_type_at f s pc pcs db,
      )

  -- Clearing answers true exactly if there was a type to clear at one of the definition
  -- addresses.
  pub clear_type-any_type :
      (func : ℕ) (loc : MemoryLocation) (db : Db)
      → (clear_type api func loc db).0 ≡ any_type func loc.space_name loc.pc db
  unfolding clear_type
  clear_type-any_type func loc db = clear_each-any_type func loc.space_name loc.pc false db
