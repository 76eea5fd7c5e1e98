-- ===== src/Base/Hex.antt =====
-- `to_hex` of yagi/src/base.cc: `stream << "0x" << std::hex << addr`.
use yagi.Common.{
  ℕ, zero, suc, ◌+◌, ◌-◌, ◌/◌, ◌%◌, ◌≤◌, ◌<◌, ◌≢◌, [], ◌∷◌, arith, Bytes, ltb, ◌==◌, if◌then◌else◌,
  Lacks, All, ◌⊎◌,
}

-- A lower-case hexadecimal digit.
unfoldable pub hex_digit : ℕ → ℕ
hex_digit d = if ltb d 10 then b'0' + d else b'a' + (d - 10)

-- `std::hex` writes the digits from the last to the first; `k` bounds the rounds.
unfoldable pub hex_loop : ℕ → ℕ → Bytes → Bytes
hex_loop zero n out = out
hex_loop (suc k) n out =
    let rest = hex_loop k (n / 16) (hex_digit (n % 16) ∷ out) in if n == 0 then out else rest

-- The digits of a number, with no leading zero.
unfoldable pub hex : ℕ → Bytes
unfolding hex_loop hex_digit
hex n = if n == 0 then b'0' ∷ [] else hex_loop n n []

unfoldable pub to_hex : ℕ → Bytes
unfolding hex
to_hex addr = b'0' ∷ b'x' ∷ hex addr

-- A byte that is a digit or a letter from `a` to `f`.
abbrev pub IsHexDigit : ℕ → Type 0
IsHexDigit c = ((b'0' ≤ c) × (c ≤ b'9')) ⊎ ((b'a' ≤ c) × (c ≤ b'f'))

hex_digit-IsHexDigit : (d : ℕ) → d < 16 → IsHexDigit (hex_digit d)
unfolding hex_digit
hex_digit-IsHexDigit d h = ground arith

hex_loop-All : (k n : ℕ) (out : Bytes) → All IsHexDigit out → All IsHexDigit (hex_loop k n out)
unfolding hex_loop
hex_loop-All zero n out h = h
hex_loop-All (suc k) n out h =
    let more : All IsHexDigit (hex_digit (n % 16) ∷ out) =
      (hex_digit-IsHexDigit (n % 16) (omega arith), h) in
    let step = hex_loop-All k (n / 16) (hex_digit (n % 16) ∷ out) more in ground (arith, step)

pub hex-All : (n : ℕ) → All IsHexDigit (hex n)
unfolding hex
hex-All n = let digits = hex_loop-All n n [] tt in ground (arith, digits)

pub All-Lacks :
    (b : ℕ) (s : Bytes) → ((c : ℕ) → IsHexDigit c → c ≢ b) → All IsHexDigit s → Lacks b s
All-Lacks b [] h _ = tt
All-Lacks b (c ∷ s) h (hc, hs) = (h c hc, All-Lacks b s h hs)

-- The byte that parts the fields of a stored value does not occur in a printed address.
pub to_hex-Lacks_bar : (n : ℕ) → Lacks b'|' (to_hex n)
unfolding to_hex
to_hex-Lacks_bar n =
    (omega arith, (omega arith, All-Lacks b'|' (hex n) (λ c h. ground arith) (hex-All n)))

-- Nor does the byte that parts the fields of a node's name.
pub to_hex-Lacks_dot : (n : ℕ) → Lacks b'.' (to_hex n)
unfolding to_hex
to_hex-Lacks_dot n =
    (omega arith, (omega arith, All-Lacks b'.' (hex n) (λ c h. ground arith) (hex-All n)))
