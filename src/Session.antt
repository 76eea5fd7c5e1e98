-- ===== src/Session.antt =====
-- A session on one database: the keys that the user presses, handled by `_KeyboardCallback` of
-- yagi/src/plugin.cc, between the actions of the decompilations, yagi/src/yagiaction.cc. They meet
-- only in the netnodes, which a key writes and an action searches.
pub mod Store
pub mod Represented
pub mod Renamed
pub mod Last
pub mod Order
use yagi.Common.{ℕ, List, [], ◌∷◌, Option, Bytes}
use yagi.Symbol.Location.{MemoryLocation}
use yagi.Symbol.Netnode.{NetnodeApi}
use yagi.Plugin.Keyboard.{Ida, keyboard}
use yagi.Action.Rename.{rename_vars}
use yagi.Action.LoadScope.{LocalScope, load_vars}
use yagi.Architecture.{YagiAction, rename_var, load_local_scope}
use yagi.Types.Manager.Monad.{M}

-- A key pressed in a view, with what IDA and the user answer then. `ea` and `symbols` are those of
-- the view.
pub record Press : Type 0 where
  pub ida : Ida
  pub ea : ℕ
  pub symbols : List (Bytes × MemoryLocation)
  pub key : ℕ
  pub shift : ℕ
  pub keyword : Option Bytes

-- What Ghidra shows to an action: the addresses of the operations, the symbols of the local scope,
-- and the states of the type factory and of that scope.
pub record Seen (FS S : Type 0) : Type 0 where
  pub pcs : List ℕ
  pub find_addr : Bytes → ℕ → ℕ → Option ℕ
  pub unset : ℕ
  pub factory : FS
  pub local : S

-- A press, or an action that is applied to the function at an address. An exception ends a
-- decompilation: no further action of it follows.
pub data Event (FS S : Type 0) : Type 0 where
  press : Press → Event FS S
  apply : ℕ → YagiAction → Seen FS S → Event FS S

module _ (api : NetnodeApi) {T D FS : Type 0} (parse_decl : Bytes → Option T) (find : T → M FS D)
    (scope : LocalScope D) where
  open api use {Db}

  -- What an action leaves in the database. Those of the frame and of the languages have no part
  -- in the netnodes.
  pub apply_action : ℕ → YagiAction → Seen FS scope.S → Db → Db
  apply_action func (rename_var space) seen db =
      (rename_vars api seen.find_addr seen.unset func space seen.pcs db).2
  apply_action func (load_local_scope space) seen db =
      (load_vars api parse_decl find scope seen.unset func space seen.pcs db seen.factory
        seen.local).1
  apply_action func YagiAction.sync_stack_var seen db = db
  apply_action func YagiAction.mips_t9_optimization seen db = db
  apply_action func YagiAction.add_ebpf_syscall seen db = db

  pub step : Event FS scope.S → Db → Db
  unfolding apply_action
  step (press p) db = (keyboard api p.ida p.ea p.symbols p.key p.shift p.keyword db).2
  step (apply func action seen) db = apply_action func action seen db

  -- The database after the events of a session.
  pub session : List (Event FS scope.S) → Db → Db
  unfolding step
  session [] db = db
  session (e ∷ events) db = session events (step e db)
