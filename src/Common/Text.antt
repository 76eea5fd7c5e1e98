-- ===== src/Common/Text.antt =====
-- Byte strings: a `std::string`, a `qstring` and a C string are lists of byte values.
use Prim.Native.Nat.{ℕ, suc}
use Prim.Native.Char.{code}
use Prim.Native.String.{String}
use mathlib.Core.Bool.{Bool, true, false, ◌&&◌}
use mathlib.Core.List.{List, [], ◌∷◌, ◌++◌}
use mathlib.Core.Logic.{◌≢◌, ◌⊎◌, inl, inr}
use mathlib.Core.Option.{Option, none, some}
use mathlib.Core.Path.{◌≡◌, refl, ap}
use native.Mathlib.Omega.{arith}
use yagi.Common.Lists.{All, All-append, length}
use yagi.Common.Tests.{◌==◌, if◌then◌else◌, Bool-cases}

abbrev pub Bytes : Type 0
Bytes = List ℕ

-- The code points of a literal, which are its bytes where the text is ASCII.
abbrev pub codes : String → Bytes
codes String.[] = []
codes (String.◌∷◌ c s) = code c ∷ codes s

-- The byte does not occur in the string.
abbrev pub Lacks : ℕ → Bytes → Type 0
Lacks b = All (λ c. c ≢ b)

pub Lacks-append : (b : ℕ) (s t : Bytes) → Lacks b s → Lacks b t → Lacks b (s ++ t)
Lacks-append b s t = All-append (λ c. c ≢ b) s t

-- `std::string::operator==`.
abbrev pub bytes_eq : Bytes → Bytes → Bool
bytes_eq [] [] = true
bytes_eq [] (d ∷ t) = false
bytes_eq (c ∷ s) [] = false
bytes_eq (c ∷ s) (d ∷ t) = c == d && bytes_eq s t

pub bytes_eq_refl : (s : Bytes) → bytes_eq s s ≡ true
bytes_eq_refl [] = refl
bytes_eq_refl (c ∷ s) = ground (arith, bytes_eq_refl s)

pub bytes_eq→≡ : (s t : Bytes) → bytes_eq s t ≡ true → s ≡ t
bytes_eq→≡ [] [] h = refl
bytes_eq→≡ [] (d ∷ t) h = cc
bytes_eq→≡ (c ∷ s) [] h = cc
bytes_eq→≡ (c ∷ s) (d ∷ t) h = ground (arith, bytes_eq→≡ s t)

-- The position of the first occurrence of a byte: `find`, with `none` for `npos`.
abbrev pub find_byte : ℕ → Bytes → Option ℕ
find_byte b [] = none
find_byte b (c ∷ s) =
    if c == b then some 0 else (elim (find_byte b s) [ none ↦ none | some n ↦ some (suc n) ])

pub find_byte-append :
    (b : ℕ) (s t : Bytes) → Lacks b s → find_byte b (s ++ b ∷ t) ≡ some (length s)
find_byte-append b [] t _ = ground arith
find_byte-append b (c ∷ s) t (h, hs) = ground (arith, find_byte-append b s t hs)

pub find_byte_absent : (b : ℕ) (s : Bytes) → Lacks b s → find_byte b s ≡ none
find_byte_absent b [] _ = refl
find_byte_absent b (c ∷ s) (h, hs) = ground (arith, find_byte_absent b s hs)

-- A string is cut at the first occurrence of a byte, or has none.
abbrev pub CutAt : ℕ → Bytes → Type 0
CutAt b s =
    (Lacks b s × (find_byte b s ≡ none))
    ⊎ ((before : Bytes) × (behind : Bytes) × Lacks b before
        × (s ≡ before ++ b ∷ behind)
        × (find_byte b s ≡ some (length before)))

CutAt-cons : (b c : ℕ) (s : Bytes) → ¬ (c ≡ b) → CutAt b s → CutAt b (c ∷ s)
CutAt-cons b c s differ (inl (lacks, e)) = inl ((differ, lacks), ground arith)
CutAt-cons b c s differ (inr (before, behind, lacks, is, e)) =
    inr (c ∷ before, behind, (differ, lacks), ap (◌∷◌ c) is, ground arith)

pub cut_at : (b : ℕ) (s : Bytes) → CutAt b s
cut_at b [] = inl (tt, refl)
cut_at b (c ∷ s) = elim (Bool-cases (c == b)) [
  | inl e ↦ inr ([], s, tt, ground arith, ground arith)
  | inr e ↦ CutAt-cons b c s (λ is. ground arith) (cut_at b s)
]
