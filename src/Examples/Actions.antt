-- ===== src/Examples/Actions.antt =====
-- The actions of yagi/src/yagiaction.cc at concrete inputs.
use yagi.Common.{◌≡◌, refl, ◌↔◌, true, false, List, [], ◌∷◌, ◌++◌, some, arith, inl, Bytes, codes}
use yagi.Symbol.Location.{MemoryLocation}
use yagi.Action.Rename.{rename_symbol}
use yagi.Common.Maps.{lookup}
use yagi.Symbol.Frame.{Member, Frame, find_member, is_at, member_name}
use yagi.Architecture.{load_local_scope}
use yagi.Action.Clone.{new, clone, clone_iff}
use yagi.Action.MipsT9.{op, copy, insert_begin, apply_t9}
use yagi.Action.SyncStack.{SymbolEntry, renamed_symbol, sync_stack_vars}
use yagi.Action.SyncStack.Laws.{entry_location, sync_stack_vars-double_click}
use yagi.Plugin.DoubleClick.{double_click, open_frame_window}

-- A frame of 32 bytes below the saved registers, and the entry of its member at offset 16.
abbrev saved_x : Member
saved_x = record { soff = 16; name = codes "main.x" }

abbrev frame : Frame
frame = record { members = saved_x ∷ []; frsize = 32; frregs = 8 }

abbrev entry_x : SymbolEntry
entry_x = record {
  symbol = 3;
  space_name = codes "stack";
  offset = 0xFFFFFFFFFFFFFFE8;
  addr_size = 8;
  high = some 5;
}

abbrev symbols : List (Bytes × MemoryLocation)
symbols = (codes "x", entry_location entry_x (4100 ∷ [])) ∷ []

found_x : find_member frame entry_x.offset 8 (saved_x ∷ []) ≡ some saved_x
unfolding find_member is_at
found_x = refl

listed_x : lookup (codes "x") symbols ≡ some (entry_location entry_x (4100 ∷ []))
unfolding lookup
listed_x = refl

sync_stack_vars-double_click_example :
    (sync_stack_vars (some frame) (entry_x ∷ entry_x ∷ [])
      ≡ sync_stack_vars (some frame) (entry_x ∷ [])
        ++ rename_symbol 5 (codes "x") ∷ sync_stack_vars (some frame) [])
    × (double_click frame symbols (some (codes "x")) ≡ open_frame_window 16)
unfolding member_name renamed_symbol
sync_stack_vars-double_click_example =
    sync_stack_vars-double_click frame (entry_x ∷ []) [] entry_x saved_x (4100 ∷ []) symbols refl
      found_x (omega arith) (inl (ground arith)) listed_x

-- A function at 4096 with two blocks, whose first operation stands in the second one.
t9_first :
    apply_t9 8 4096 1 ((op 8192 ∷ []) ∷ (op 4096 ∷ op 4100 ∷ []) ∷ [])
    ≡ (op 8192 ∷ []) ∷ (copy 4096 8 4096 (codes "t9") 8 ∷ op 4096 ∷ op 4100 ∷ []) ∷ []
unfolding apply_t9 insert_begin
t9_first = refl

clone_iff_example :
    (clone (λ g. true) (new (codes "yagi") (load_local_scope (codes "stack")))
      ≡ some (new (codes "yagi") (load_local_scope (codes "stack"))))
    ↔ ((true ≡ true) × (true ≡ false))
clone_iff_example = clone_iff (λ g. true) (codes "yagi") (load_local_scope (codes "stack"))
