-- ===== src/Examples/Keys.antt =====
-- The callbacks of yagi/src/plugin.cc at concrete inputs.
use yagi.Common.{
  Option, none, some, inl, if◌then◌else◌, Bool-cases, ℕ, ◌+◌, ◌<◌, false, inr, ◌++◌, ◌≡◌, refl,
  true, List, [], ◌∷◌, arith, Bytes, codes,
}
use yagi.Common.Maps.{lookup}
use yagi.Symbol.Location.{MemoryLocation}
use yagi.Symbol.Saved
use yagi.Symbol.Saved.{find_name}
use yagi.Symbol.Frame.{Member, Frame, find_member, is_at}
use yagi.Plugin.Keyboard.{run_yagi, returns, keyboard}
use yagi.Print.Emit.{Highlight, strip_import, is_import_name, guard_color}
use yagi.Print.Tokens.{Token}
use yagi.Plugin.Keyword.Seek.{Piece, token, space, line, width, piece_bytes}
use yagi.Plugin.Keyboard.Pointed.{callback, callback-rename}
use yagi.Plugin.Keyboard.Throws.{is_bad_access, keyboard-throws}
use yagi.Plugin.Windows.{Widgets, Heap, Gone, allocated, freed, run, closed, on_events}
use yagi.Plugin.Windows.Owned.{Owned, on_events-Owned}
use yagi.Examples.Database.{is_ascii_alnum, memory, empty_db, register_at, ida, ida_outside}

abbrev pub rax : MemoryLocation
rax = register_at (4100 ∷ [])

abbrev pub symbols : List (Bytes × MemoryLocation)
symbols = (codes "uVar1", rax) ∷ []

pub listed : lookup (codes "uVar1") symbols ≡ some rax
unfolding lookup
listed = refl

-- The variable in a printed line, behind its type.
abbrev printed : Token
printed = Token.variable (codes "uVar1") Highlight.var_color false

abbrev front : List Piece
front = token (Token.typing (codes "int") Highlight.type_color) ∷ space (codes " ") ∷ []

not_alnum : (c : ℕ) → c < b'0' → is_ascii_alnum c ≡ false
not_alnum c h = ground arith

callback-rename_example :
    (db : Bytes → Bytes) × (callback memory ida is_ascii_alnum 4096 symbols b'N' 0
        (line front ++ (piece_bytes (token printed) ++ codes ";"))
        (width front + 2)
        empty_db
      ≡ some (returns true, run_yagi ∷ [], db))
    × ((find_name memory 4096 4100 (codes "register") db).0
        ≡ Saved.returns (some (codes "count")) (some 16))
unfolding lookup strip_import is_import_name guard_color
callback-rename_example =
    callback-rename memory ida is_ascii_alnum 4096 4096 4100 symbols front printed (codes "uV")
      (codes "ar1") (codes ";") (codes "count") rax empty_db (ground arith) (ground arith) refl
      (omega arith) not_alnum (inr refl) refl refl refl refl (ground arith) (omega arith) refl

-- Key Y outside every function, where the user gives a declaration.
keyboard-throws_example :
    is_bad_access
      (keyboard memory ida_outside 4096 symbols b'Y' 0 (some (codes "uVar1")) empty_db).0
    ≡ true
keyboard-throws_example =
    keyboard-throws memory ida_outside 4096 b'Y' 0 symbols (codes "uVar1") rax empty_db listed

-- A frame of 32 bytes below the saved registers, with a member at its offset 16.
abbrev saved_x : Member
saved_x = record { soff = 16; name = codes "x" }

abbrev frame : Frame
frame = record { members = saved_x ∷ []; frsize = 32; frregs = 8 }

-- The address of the member counted from the frame pointer, 24 below it.
abbrev local_x : MemoryLocation
local_x = record { space_name = codes "stack"; offset = 0xFFFFFFFFFFFFFFE8; addr_size = 8; pc = [] }

abbrev stack_symbols : List (Bytes × MemoryLocation)
stack_symbols = (codes "x", local_x) ∷ []

stack_listed : lookup (codes "x") stack_symbols ≡ some local_x
unfolding lookup
stack_listed = refl

member_found : find_member frame local_x.offset 8 (saved_x ∷ []) ≡ some saved_x
unfolding find_member is_at
member_found = refl

-- The viewers as the list of what they were opened with, where every title finds the latest.
abbrev latest : List ℕ → Option ℕ
latest [] = none
latest (ud ∷ uds) = some ud

abbrev close_viewer : ℕ → List ℕ → Option ℕ × List ℕ
close_viewer ud uds = if allocated ud uds then (some ud, freed ud uds) else (none, uds)

close_viewer-Gone :
    (ud : ℕ) (uds : List ℕ) → Gone (close_viewer ud uds).0 uds (close_viewer ud uds).1
close_viewer-Gone ud uds = elim (Bool-cases (allocated ud uds)) [
  | inl e ↦ rw (e, close_viewer) (e, refl)
  | inr e ↦ rw (e, close_viewer) refl
]

abbrev viewers : Widgets
viewers = record {
  S = List ℕ;
  Widget = ℕ;
  viewers = λ uds. uds;
  find_widget = λ title uds. latest uds;
  close_widget = close_viewer;
  create_custom_viewer = λ title ud uds. ud ∷ uds;
  viewers-close_widget = close_viewer-Gone;
  viewers-create_custom_viewer = λ title ud uds. refl;
}

abbrev no_results : Heap
no_results = record { results = []; next = 0; lines = 0 }

on_events-Owned_example :
    (s : List ℕ) × (h : Heap) × (on_events viewers
        (run (codes "main") ∷ run (codes "main") ∷ closed 1 ∷ run (codes "sub") ∷ [])
        []
        no_results
      ≡ some (s, h))
    × Owned viewers s h
    × (h.lines ≡ 3)
on_events-Owned_example =
    on_events-Owned viewers
      (run (codes "main") ∷ run (codes "main") ∷ closed 1 ∷ run (codes "sub") ∷ []) [] no_results
      (refl, refl)
