-- ===== src/Action/LoadScope.antt =====
-- `ActionLoadLocalScope::apply` of yagi/src/yagiaction.cc: a variable with a saved type becomes a
-- symbol of that type.
pub mod Laws
pub mod Nodes
pub mod Table
use yagi.Common.{ℕ, ◌≡◌, List, [], ◌∷◌, Option, none, some, Bytes, codes, bytes_eq, if◌then◌else◌}
use yagi.Base.Stoull.{Stoull}
use yagi.Symbol.Netnode.{NetnodeApi}
use yagi.Symbol.Saved
use yagi.Symbol.Saved.{Outcome, find_type}
use yagi.Action.Rename.{searched, offset_or}
use yagi.Types.Manager.Monad.{Result, ok, M}

-- Ghidra's local scope: a symbol at an address, seen from an operation or from everywhere, which
-- is the invalid address. A symbol that was added is found, and its attribute hides none.
pub record LocalScope (D : Type 0) : Type 1 where
  pub S : Type 0
  pub Symbol : Type 0
  pub find_addr : Bytes → ℕ → Option ℕ → S → Option Symbol
  pub add_symbol : D → Bytes → ℕ → Option ℕ → S → Symbol × S
  pub lock_type : Symbol → S → S
  pub find_addr-add_symbol :
      (d : D) (space : Bytes) (offset : ℕ) (usepoint : Option ℕ) (s : S)
      → find_addr space offset usepoint (add_symbol d space offset usepoint s).1
        ≡ some (add_symbol d space offset usepoint s).0
  pub find_addr-lock_type :
      (sym : Symbol) (space : Bytes) (offset : ℕ) (usepoint : Option ℕ) (s : S)
      → find_addr space offset usepoint (lock_type sym s) ≡ find_addr space offset usepoint s

-- What ends the loop early: the exception of the search, or the type manager.
pub data Stop : Type 0 where
  search : Stoull → Stop
  no_type : Stop

-- On the stack a symbol is seen from everywhere.
pub usepoint_of : Bytes → ℕ → Option ℕ
usepoint_of space pc = if bytes_eq space (codes "stack") then none else some pc

module _ (api : NetnodeApi) {T D FS : Type 0} (parse_decl : Bytes → Option T) (find : T → M FS D)
    (scope : LocalScope D) (unset : ℕ) where
  open api use {Db}
  open scope use {S, Symbol}

  -- `find` is the type manager's `findByTypeInfo`, on the state of its factory.
  pub add_typed : Bytes → ℕ → Option ℕ → Result D × FS → S → Option Stop × FS × S
  add_typed space offset usepoint (ok d, fs) s =
      let (sym, s') = scope.add_symbol d space offset usepoint s in
      (none, fs, scope.lock_type sym s')
  add_typed space offset usepoint (Result.no_model, fs) s = (some no_type, fs, s)
  add_typed space offset usepoint (Result.out_of_fuel, fs) s = (some no_type, fs, s)

  -- The type that was found, and the entry, which is looked up twice.
  pub load_found :
      Bytes
      → ℕ
      → Option ℕ
      → Option T
      → Option Symbol
      → Option Symbol
      → FS
      → S
      → Option Stop × FS × S
  unfolding add_typed
  load_found space offset usepoint (some t) none none fs s =
      add_typed space offset usepoint (find t fs) s
  load_found space offset usepoint (some t) none (some sym) fs s = (none, fs, s)
  load_found space offset usepoint (some t) (some sym) entry fs s = (none, fs, s)
  load_found space offset usepoint none again entry fs s = (none, fs, s)

  pub load_at : Bytes → ℕ → Outcome T → FS → S → Option Stop × FS × S
  unfolding load_found usepoint_of searched offset_or
  load_at space pc (Saved.throws e) fs s = (some (search e), fs, s)
  load_at space pc (Saved.returns type offset) fs s =
      let address = offset_or unset offset in
      let usepoint = usepoint_of (searched space) pc in
      let entry = scope.find_addr (searched space) address usepoint s in
      load_found (searched space) address usepoint type entry entry fs s

  -- The rest of the loop, if it goes on.
  abbrev pub go_on :
      (Db → FS → S → Option Stop × Db × FS × S)
      → Db
      → Option Stop × FS × S
      → Option Stop × Db × FS × S
  go_on rest db (none, fs, s) = rest db fs s
  go_on rest db (some stop, fs, s) = (some stop, db, fs, s)

  -- The loop over the operations, by their addresses.
  pub load_vars : ℕ → Bytes → List ℕ → Db → FS → S → Option Stop × Db × FS × S
  load_vars func space [] db fs s = (none, db, fs, s)
  load_vars func space (pc ∷ pcs) db fs s =
      let (found, db') = find_type api parse_decl func pc space db in
      go_on (load_vars func space pcs) db' (load_at space pc found fs s)
