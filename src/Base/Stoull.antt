-- ===== src/Base/Stoull.antt =====
-- `std::stoull(s, nullptr, 16)` of the C++ standard library, which reads what `to_hex` wrote.
use yagi.Common.{
  ℕ, ◌+◌, ◌-◌, ◌*◌, ◌%◌, ◌^◌, true, false, none, some, Option, Bool, [], ◌∷◌, ◌||◌, ◌&&◌, Bytes,
  ltb, leb, ◌==◌, if◌then◌else◌,
}

-- What the call does: it returns a value, or throws.
pub data Stoull : Type 0 where
  value : ℕ → Stoull
  invalid_argument : Stoull
  out_of_range : Stoull

-- The value of a hexadecimal digit, in either case.
unfoldable pub digit_value : ℕ → Option ℕ
digit_value c =
    if leb b'0' c && leb c b'9'
    then some (c - b'0')
    else if leb b'a' c && leb c b'f'
    then some (c - b'a' + 10)
    else if leb b'A' c && leb c b'F'
    then some (c - b'A' + 10)
    else none

-- `isspace` in the C locale.
unfoldable pub is_space : ℕ → Bool
is_space c = c == 32 || leb 9 c && leb c 13

unfoldable pub skip_space : Bytes → Bytes
unfolding is_space
skip_space [] = []
skip_space (c ∷ s) = if is_space c then skip_space s else c ∷ s

-- The number that the leading digits spell, behind `n`.
unfoldable pub scan : Bytes → ℕ → ℕ
scan [] n = n
scan (c ∷ s) n = elim (digit_value c) [ none ↦ n | some d ↦ scan s (n * 16 + d) ]

-- A sequence of digits must have one at least; the number must fit in 64 bits.
unfoldable pub digits : Bool → Bytes → Stoull
digits negative [] = invalid_argument
digits negative (c ∷ s) = elim (digit_value c) [
  | none ↦ invalid_argument
  | some d ↦
      let n = scan (c ∷ s) 0 in
      if ltb n (2 ^ 64) then value (if negative then (2 ^ 64 - n) % 2 ^ 64 else n) else out_of_range
]

-- `0x` is a prefix if a digit follows it; otherwise the `0` is the number.
unfoldable pub prefixed : Bool → Bytes → Stoull
prefixed negative [] = digits negative []
prefixed negative (c ∷ []) = digits negative (c ∷ [])
prefixed negative (c ∷ d ∷ []) = digits negative (c ∷ d ∷ [])
prefixed negative (c ∷ d ∷ e ∷ s) =
    if c == b'0' && (d == b'x' || d == b'X')
    then (elim (digit_value e) [ none ↦ value 0 | some _ ↦ digits negative (e ∷ s) ])
    else digits negative (c ∷ d ∷ e ∷ s)

unfoldable pub signed : Bytes → Stoull
signed [] = invalid_argument
signed (c ∷ s) =
    if c == b'-'
    then prefixed true s
    else if c == b'+'
    then prefixed false s
    else prefixed false (c ∷ s)

unfoldable pub stoull : Bytes → Stoull
stoull s = signed (skip_space s)
