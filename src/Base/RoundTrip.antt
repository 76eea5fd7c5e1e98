-- ===== src/Base/RoundTrip.antt =====
-- `std::stoull` in base 16 against `to_hex`, and different numbers under `to_hex`.
use yagi.Common.{
  ℕ, zero, suc, ◌/◌, ◌%◌, ◌^◌, ◌≤◌, ◌<◌, ◌≡◌, refl, sym, ap, ◌∙◌, some, [], ◌∷◌, arith, Bytes, ◌==◌,
  Bool-cases, inl, inr,
}
use yagi.Base.Hex.{hex_digit, hex_loop, hex, to_hex}
use yagi.Base.Stoull.{
  value, digit_value, scan, digits, prefixed, signed, skip_space, is_space, stoull,
}

digit_value-hex_digit : (d : ℕ) → d < 16 → digit_value (hex_digit d) ≡ some d
unfolding digit_value hex_digit
digit_value-hex_digit d h = ground arith

scan-hex_digit : (n : ℕ) (out : Bytes) → scan (hex_digit (n % 16) ∷ out) (n / 16) ≡ scan out n
unfolding scan
scan-hex_digit n out =
    rw (digit_value-hex_digit (n % 16) (omega arith), scan) (ap (scan out) (omega arith))

-- The digits that the loop puts in front of `out` read as the number that it writes.
scan-hex_loop : (k n : ℕ) (out : Bytes) → n ≤ k → scan (hex_loop k n out) 0 ≡ scan out n
unfolding hex_loop
scan-hex_loop zero n out h = ap (scan out) (omega arith)
scan-hex_loop (suc k) n out h = elim (Bool-cases (n == 0)) [
  | inl e ↦ rw e (ap (scan out) (ground arith))
  | inr e ↦
      rw e
        (scan-hex_loop k (n / 16) (hex_digit (n % 16) ∷ out) (ground arith) ∙ scan-hex_digit n out)
]

pub scan-hex : (n : ℕ) → scan (hex n) 0 ≡ n
unfolding hex
scan-hex n = elim (Bool-cases (n == 0)) [
  | inl e ↦ rw e (unfold scan digit_value in ground arith)
  | inr e ↦ rw e (scan-hex_loop n n [] (omega arith) ∙ unfold scan in refl)
]

-- Two addresses that print alike are one address.
pub to_hex_injective : (m n : ℕ) → to_hex m ≡ to_hex n → m ≡ n
unfolding to_hex
to_hex_injective m n e = cc (scan-hex m, scan-hex n)

-- The string starts with a digit.
abbrev StartsWithDigit : Bytes → Type 0
StartsWithDigit s = (e : ℕ) × (t : Bytes) × (d : ℕ) × (s ≡ e ∷ t) × (digit_value e ≡ some d)

hex_loop-StartsWithDigit :
    (k n : ℕ) (out : Bytes) → StartsWithDigit out → StartsWithDigit (hex_loop k n out)
unfolding hex_loop
hex_loop-StartsWithDigit zero n out h = h
hex_loop-StartsWithDigit (suc k) n out h =
    let new : StartsWithDigit (hex_digit (n % 16) ∷ out) =
      (hex_digit (n % 16), out, n % 16, refl, digit_value-hex_digit (n % 16) (omega arith)) in
    elim (Bool-cases (n == 0)) [
      | inl e ↦ rw e h
      | inr e ↦ rw e (hex_loop-StartsWithDigit k (n / 16) _ new)
    ]

hex-suc : (n : ℕ) → hex (suc n) ≡ hex_loop n (suc n / 16) (hex_digit (suc n % 16) ∷ [])
unfolding hex
hex-suc n = ground arith

hex-StartsWithDigit : (n : ℕ) → StartsWithDigit (hex n)
unfolding hex
hex-StartsWithDigit zero = unfold digit_value in (b'0', [], 0, refl, refl)
hex-StartsWithDigit (suc n) = rw hex-suc (
    hex_loop-StartsWithDigit n (suc n / 16) _
      (hex_digit (suc n % 16), [], suc n % 16, refl, digit_value-hex_digit _ (omega arith)))

-- `stoull` of a text that starts with `0x` and a digit is the number that the digits spell.
stoull_prefixed :
    (e d : ℕ) (t : Bytes)
    → digit_value e ≡ some d
    → scan (e ∷ t) 0 < 2 ^ 64
    → stoull (b'0' ∷ b'x' ∷ e ∷ t) ≡ value (scan (e ∷ t) 0)
unfolding stoull skip_space is_space signed prefixed digits
stoull_prefixed e d t digit h = ground arith

-- Every 64-bit number that `to_hex` prints is read back by `stoull`.
pub stoull-to_hex : (addr : ℕ) → addr < 2 ^ 64 → stoull (to_hex addr) ≡ value addr
unfolding to_hex
stoull-to_hex addr h =
    let (e, t, d, same, digit) = hex-StartsWithDigit addr in
    let whole : scan (e ∷ t) 0 ≡ addr = ap (λ u. scan u 0) (sym same) ∙ scan-hex addr in
    rw same (stoull_prefixed e d t digit (rw whole h) ∙ ap value whole)
