-- ===== src/Plugin/DoubleClick.antt =====
-- `_DoubleClickCallback` of yagi/src/plugin.cc, in 64-bit words.
use yagi.Common.{
  ℕ, ◌+◌, ◌%◌, ◌^◌, ◌≤◌, ◌<◌, ◌≡◌, ◌≢◌, Bool, true, false, ◌&&◌, ◌||◌, List, Option, none, some,
  arith, Bytes, codes, bytes_eq, ◌==◌, leb, if◌then◌else◌, ◌⊎◌, inl, inr, ap, sym, ◌∙◌, Bool-cases,
  bytes_eq→≡,
}
use mathlib.Core.Bool.{false≢true}
use yagi.Common.Maps.{lookup}
use yagi.Symbol.Location.{MemoryLocation}
use yagi.Symbol.Frame.{Member, Frame, base, is_at, find_member, find_member-is_at}

-- What the callback asks of IDA.
pub data Click : Type 0 where
  nothing : Click
  not_found : Bytes → Click
  jumpto : ℕ → Click
  open_frame_window : ℕ → Click

-- `0xFFFFFFFF00000000 | offset`: the upper half of the word is set, the lower half kept.
pub set_upper_half : ℕ → ℕ
set_upper_half offset = 0xFFFFFFFF00000000 + offset % 2 ^ 32

-- `addrSize == 4 && (int32_t)offset < 0` extends the sign of a four-byte address.
pub extend_offset : ℕ → ℕ → ℕ
unfolding set_upper_half
extend_offset addr_size offset =
    if addr_size == 4 && leb (2 ^ 31) (offset % 2 ^ 32) then set_upper_half offset else offset

pub frame_target : Frame → ℕ → ℕ → ℕ
unfolding extend_offset
frame_target f addr_size offset = (extend_offset addr_size offset + base f) % 2 ^ 64

abbrev pub in_frame : Bytes → Bool
in_frame space = bytes_eq space (codes "stack") || bytes_eq space (codes "const")

click_at : Frame → MemoryLocation → Click
unfolding frame_target
click_at f loc =
    if bytes_eq loc.space_name (codes "ram")
    then jumpto loc.offset
    else if in_frame loc.space_name
    then open_frame_window (frame_target f loc.addr_size loc.offset)
    else nothing

click_found : Frame → Bytes → Option MemoryLocation → Click
unfolding click_at
click_found f keyword none = not_found keyword
click_found f keyword (some loc) = click_at f loc

-- `keyword` is what `_ComputeKeyword` returns.
pub double_click : Frame → List (Bytes × MemoryLocation) → Option Bytes → Click
unfolding click_found
double_click f symbols none = nothing
double_click f symbols (some keyword) = click_found f keyword (lookup keyword symbols)

-- A member at 64-bit addresses.
target_wide :
    (f : Frame) (m : Member) (addr_size offset : ℕ)
    → addr_size ≢ 4
    → m.soff < 2 ^ 64
    → is_at f offset addr_size m ≡ true
    → frame_target f addr_size offset ≡ m.soff
unfolding frame_target is_at
target_wide f m addr_size offset wide small at_ = ground arith

-- A member at 32-bit addresses, within 2 GB of the frame pointer.
target_narrow :
    (f : Frame) (m : Member) (offset : ℕ)
    → m.soff < 2 ^ 64
    → offset < 2 ^ 32
    → m.soff < base f + 2 ^ 31
    → base f ≤ m.soff + 2 ^ 31
    → is_at f offset 4 m ≡ true
    → frame_target f 4 offset ≡ m.soff
unfolding frame_target is_at
target_narrow f m offset small word_ above below at_ = ground arith

-- Where an address fits: a wide one always, one of four bytes within 2 GB of the frame pointer.
abbrev pub Fits : Frame → Member → MemoryLocation → Type 0
Fits f m loc =
    (loc.addr_size ≢ 4)
    ⊎ ((loc.addr_size ≡ 4)
        × (loc.offset < 2 ^ 32)
        × (m.soff < base f + 2 ^ 31)
        × (base f ≤ m.soff + 2 ^ 31))

frame_target-find_member :
    (f : Frame) (m : Member) (loc : MemoryLocation)
    → m.soff < 2 ^ 64
    → Fits f m loc
    → is_at f loc.offset loc.addr_size m ≡ true
    → frame_target f loc.addr_size loc.offset ≡ m.soff
frame_target-find_member f m loc small (inl wide) at_ =
    target_wide f m loc.addr_size loc.offset wide small at_
frame_target-find_member f m loc small (inr (four, word_, above, below)) at_ =
    ap (λ n. frame_target f n loc.offset) four
    ∙ target_narrow f m loc.offset small word_ above below
        (ap (λ n. is_at f loc.offset n m) (sym four) ∙ at_)

frame-ne_ram : (space : Bytes) → in_frame space ≡ true → bytes_eq space (codes "ram") ≡ false
frame-ne_ram space h = elim (Bool-cases (bytes_eq space (codes "ram"))) [
  | inl e ↦
      let r : space ≡ codes "ram" = bytes_eq→≡ space (codes "ram") e in
      absurd (false≢true (ap in_frame (sym r) ∙ h))
  | inr e ↦ e
]

-- A double click on a word that stands for a location of the space stack or const opens the frame
-- window at the offset of the member that the search for a stack variable finds first, if the
-- address fits: it is not one of four bytes, or it is and lies within 2 GB of the frame pointer.
pub double_click-find_member :
    (f : Frame) (symbols : List (Bytes × MemoryLocation)) (keyword : Bytes) (loc : MemoryLocation)
    (m : Member)
    → lookup keyword symbols ≡ some loc
    → in_frame loc.space_name ≡ true
    → find_member f loc.offset loc.addr_size f.members ≡ some m
    → m.soff < 2 ^ 64
    → Fits f m loc
    → double_click f symbols (some keyword) ≡ open_frame_window m.soff
unfolding double_click
double_click-find_member f symbols keyword loc m listed framed found small fits =
    rw (listed, frame-ne_ram loc.space_name framed, framed)
      (ap open_frame_window (
        frame_target-find_member f m loc small fits
          (find_member-is_at f loc.offset loc.addr_size f.members found)))
