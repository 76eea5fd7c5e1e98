-- ===== src/Symbol/Frame.antt =====
-- `IdaFunctionSymbolInfo::findStackVar` of yagi/src/idasymbol.cc, in 64-bit words.
use yagi.Common.{
  refl, ℕ, ◌+◌, ◌-◌, ◌%◌, ◌^◌, ◌≡◌, Bool, true, ◌&&◌, ◌||◌, List, [], ◌∷◌, Option, none, some,
  arith, Bytes, ◌==◌, if◌then◌else◌, find_byte, drop, Bool-cases, inl, inr,
}
use mathlib.Core.Option

-- A member of IDA's frame structure: `get_soff()` and `get_struc_name(id)`.
pub record Member : Type 0 where
  pub soff : ℕ
  pub name : Bytes

-- `get_frame`, with `frsize` and `frregs` of the function.
pub record Frame : Type 0 where
  pub members : List Member
  pub frsize : ℕ
  pub frregs : ℕ

-- The distance from the frame's start to the frame pointer of the decompiler.
abbrev pub base : Frame → ℕ
base f = (f.frsize + f.frregs) % 2 ^ 64

-- `member.get_soff() - (frsize + frregs)`.
pub frame_offset : Frame → Member → ℕ
frame_offset f m = (m.soff + 2 ^ 64 - base f) % 2 ^ 64

-- The test of the loop; an address of four bytes is compared as one.
unfoldable pub is_at : Frame → ℕ → ℕ → Member → Bool
unfolding frame_offset
is_at f offset addr_size m =
    frame_offset f m == offset || (addr_size == 4 && frame_offset f m % 2 ^ 32 == offset % 2 ^ 32)

unfoldable pub find_member : Frame → ℕ → ℕ → List Member → Option Member
find_member f offset addr_size [] = none
find_member f offset addr_size (m ∷ ms) =
    if is_at f offset addr_size m then some m else find_member f offset addr_size ms

-- The name behind the first dot, or all of it.
unfoldable pub member_name : Bytes → Bytes
member_name name = elim (find_byte b'.' name) [ none ↦ name | some pp ↦ drop (pp + 1) name ]

-- `none` is a function with no frame.
pub find_stack_var : Option Frame → ℕ → ℕ → Option Bytes
unfolding find_member member_name
find_stack_var none offset addr_size = none
find_stack_var (some f) offset addr_size =
    Option.map (λ m. member_name m.name) (find_member f offset addr_size f.members)

-- The member found is one at the offset.
pub find_member-is_at :
    (f : Frame) (offset addr_size : ℕ) (ms : List Member) {m : Member}
    → find_member f offset addr_size ms ≡ some m
    → is_at f offset addr_size m ≡ true
unfolding find_member
find_member-is_at f offset addr_size [] h = cc
find_member-is_at f offset addr_size (m' ∷ ms) h = elim (Bool-cases (is_at f offset addr_size m')) [
  | inl e ↦ ground (arith, e)
  | inr e ↦ find_member-is_at f offset addr_size ms (ground (arith, e))
]

-- The name given is that of the member found.
pub find_stack_var-find_member :
    (f : Frame) (offset addr_size : ℕ) {m : Member}
    → find_member f offset addr_size f.members ≡ some m
    → find_stack_var (some f) offset addr_size ≡ some (member_name m.name)
unfolding find_stack_var
find_stack_var-find_member f offset addr_size h = rw h refl
