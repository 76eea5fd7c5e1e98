-- ===== src/Action/SyncStack/Laws.antt =====
-- The name a variable on the stack gets, against the member of the frame it is shown at.
use yagi.Common.{
  ℕ, ◌^◌, ◌<◌, ◌≡◌, refl, sym, ap, ◌∙◌, true, List, [], ◌∷◌, ◌++◌, Option, some, Bytes, codes,
  bytes_eq, append_assoc,
}
use yagi.Common.Maps.{lookup}
use yagi.Symbol.Location.{MemoryLocation}
use yagi.Symbol.Frame.{Member, Frame, find_member, member_name, find_stack_var-find_member}
use yagi.Action.Rename.{rename_symbol}
use yagi.Action.SyncStack.{SymbolEntry, renamed_symbol, sync_entry, sync_stack_vars}
use yagi.Plugin.DoubleClick.{double_click, open_frame_window, Fits, double_click-find_member}

sync_stack_vars-append :
    (frame : Option Frame) (es es' : List SymbolEntry)
    → sync_stack_vars frame (es ++ es') ≡ sync_stack_vars frame es ++ sync_stack_vars frame es'
unfolding sync_stack_vars
sync_stack_vars-append frame [] es' = refl
sync_stack_vars-append frame (e ∷ es) es' =
    ap (◌++◌ (sync_entry frame e)) (sync_stack_vars-append frame es es')
    ∙ sym (append_assoc (sync_entry frame e) (sync_stack_vars frame es) (sync_stack_vars frame es'))

sync_entry-member :
    (f : Frame) (s : SymbolEntry) (m : Member)
    → bytes_eq s.space_name (codes "stack") ≡ true
    → find_member f s.offset s.addr_size f.members ≡ some m
    → sync_entry (some f) s ≡ rename_symbol (renamed_symbol s) (member_name m.name) ∷ []
unfolding sync_entry
sync_entry-member f s m stacked found =
    rw (stacked, find_stack_var-find_member f s.offset s.addr_size found) refl

-- The location of an entry with the addresses where it is defined.
abbrev pub entry_location : SymbolEntry → List ℕ → MemoryLocation
entry_location s pcs = record {
  space_name = s.space_name;
  offset = s.offset;
  addr_size = s.addr_size;
  pc = pcs;
}

-- For an entry of the local scope on the stack at whose address the search finds a member of the
-- frame, among any other entries, the action renames its symbol, or that of its high variable, to
-- the name of the member, what stands behind its first dot if it has one, and a double click on
-- that name opens the frame window at the offset of the same member, if the view has the entry's
-- location under that name and the address fits: it is not one of four bytes, or it is and lies
-- within 2 GB of the frame pointer.
pub sync_stack_vars-double_click :
    (f : Frame) (before after : List SymbolEntry) (s : SymbolEntry) (m : Member) (pcs : List ℕ)
    (symbols : List (Bytes × MemoryLocation))
    → bytes_eq s.space_name (codes "stack") ≡ true
    → find_member f s.offset s.addr_size f.members ≡ some m
    → m.soff < 2 ^ 64
    → Fits f m (entry_location s pcs)
    → lookup (member_name m.name) symbols ≡ some (entry_location s pcs)
    → (sync_stack_vars (some f) (before ++ s ∷ after)
        ≡ sync_stack_vars (some f) before
          ++ rename_symbol (renamed_symbol s) (member_name m.name) ∷ sync_stack_vars (some f) after)
      × (double_click f symbols (some (member_name m.name)) ≡ open_frame_window m.soff)
unfolding sync_stack_vars
sync_stack_vars-double_click f before after s m pcs symbols stacked found small fits listed = (
  sync_stack_vars-append (some f) before (s ∷ after)
      ∙ ap (λ r. sync_stack_vars (some f) before ++ (r ++ sync_stack_vars (some f) after))
          (sync_entry-member f s m stacked found),
  double_click-find_member f symbols (member_name m.name) (entry_location s pcs) m listed
      (rw stacked refl) found small fits,
)
