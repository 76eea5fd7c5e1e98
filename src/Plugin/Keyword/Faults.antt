-- ===== src/Plugin/Keyword/Faults.antt =====
-- The memory that `_ComputeKeyword` reads, on any line.
use yagi.Common.{
  ℕ, zero, suc, ◌+◌, ◌≤◌, ◌<◌, ◌≡◌, ◌≢◌, refl, Bool, true, false, [], ◌∷◌, Option, some, none,
  arith, Bytes, length, inl, inr, ◌↔◌, ltb, if◌then◌else◌, Bool-cases, subst,
}
use native.Mathlib.Decide.{dec_lt}
use native.Mathlib.Nat.{zero-add}
use yagi.Plugin.Keyword.Seek.{seek_tag}
use yagi.Plugin.Keyword.{is_tag, fault, seek, word_between, keyword_at, compute_keyword}

-- How many characters of a line are neither a color tag nor the color behind one.
pub visible_width : Bytes → ℕ
visible_width [] = 0
visible_width (c ∷ []) = if is_tag c then 0 else 1
visible_width (c ∷ d ∷ rest) =
    if is_tag c then visible_width rest else suc (visible_width (d ∷ rest))

-- Where the first loop stops: within the line or at the byte that ends it, or not at all.
abbrev Stops : Option ℕ → ℕ → Type 0
Stops none limit = ⊥
Stops (some k) limit = k ≤ limit

abbrev StopsPast : Option ℕ → ℕ → Type 0
StopsPast none limit = Unit
StopsPast (some k) limit = limit < k

visible_width_tag :
    (c d : ℕ) (rest : Bytes) → is_tag c ≡ true → visible_width (c ∷ d ∷ rest) ≡ visible_width rest
unfolding visible_width
visible_width_tag c d rest e = rw e

visible_width_char :
    (c : ℕ) (rest : Bytes) → is_tag c ≡ false → visible_width (c ∷ rest) ≡ suc (visible_width rest)
unfolding visible_width
visible_width_char c [] e = rw e
visible_width_char c (d ∷ rest) e = rw e

seek_char :
    (c : ℕ) (rest : Bytes) (start x : ℕ)
    → is_tag c ≡ false
    → seek (c ∷ rest) start (suc x) ≡ seek rest (start + 1) x
unfolding seek
seek_char c [] start x e = rw (e, seek)
seek_char c (d ∷ rest) start x e = rw (e, seek)

seek-Stops :
    (rest : Bytes) (start x : ℕ)
    → x ≤ visible_width rest
    → Stops (seek rest start x) (start + length rest)
seek-Stops rest start zero h = unfold seek in omega arith
seek-Stops [] start (suc x) h = unfold visible_width in absurd (omega arith)
seek-Stops (c ∷ []) start (suc x) h = elim (Bool-cases (is_tag c)) [
  | inl e ↦ absurd (unfold visible_width in ground arith)
  | inr e ↦ rw (seek_char c [] start x e) (
      subst (Stops (seek [] (start + 1) x)) (omega arith)
        (seek-Stops [] (start + 1) x (omega (arith, visible_width_char c [] e))))
]
seek-Stops (c ∷ d ∷ rest) start (suc x) h = elim (Bool-cases (is_tag c)) [
  | inl e ↦ rw (seek_tag c d rest start x e) (
      subst (Stops (seek rest (start + 2) (suc x))) (omega arith)
        (seek-Stops rest (start + 2) (suc x) (omega (arith, visible_width_tag c d rest e))))
  | inr e ↦ rw (seek_char c (d ∷ rest) start x e) (
      subst (Stops (seek (d ∷ rest) (start + 1) x)) (omega arith)
        (seek-Stops (d ∷ rest) (start + 1) x (omega (arith, visible_width_char c (d ∷ rest) e))))
]

seek-StopsPast :
    (rest : Bytes) (start x : ℕ)
    → visible_width rest < x
    → StopsPast (seek rest start x) (start + length rest)
seek-StopsPast rest start zero h = absurd (omega arith)
seek-StopsPast [] start (suc zero) h = unfold seek in omega arith
seek-StopsPast [] start (suc (suc x)) h = unfold seek in tt
seek-StopsPast (c ∷ []) start (suc x) h = elim (Bool-cases (is_tag c)) [
  | inl e ↦ unfold seek in rw (e, seek) tt
  | inr e ↦ rw (seek_char c [] start x e) (
      subst (StopsPast (seek [] (start + 1) x)) (omega arith)
        (seek-StopsPast [] (start + 1) x (omega (arith, visible_width_char c [] e))))
]
seek-StopsPast (c ∷ d ∷ rest) start (suc x) h = elim (Bool-cases (is_tag c)) [
  | inl e ↦ rw (seek_tag c d rest start x e) (
      subst (StopsPast (seek rest (start + 2) (suc x))) (omega arith)
        (seek-StopsPast rest (start + 2) (suc x) (omega (arith, visible_width_tag c d rest e))))
  | inr e ↦ rw (seek_char c (d ∷ rest) start x e) (
      subst (StopsPast (seek (d ∷ rest) (start + 1) x)) (omega arith) (
        seek-StopsPast (d ∷ rest) (start + 1) x (omega (arith, visible_width_char c (d ∷ rest) e))))
]

module _ (is_alnum : ℕ → Bool) where
  word_between-ne_fault : (line : Bytes) (r end : ℕ) → word_between is_alnum line r end ≢ fault
  unfolding word_between
  word_between-ne_fault line r end = ground arith

  keyword_at-Stops :
      (line : Bytes) (o : Option ℕ) → Stops o (length line) → keyword_at is_alnum line o ≢ fault
  unfolding keyword_at
  keyword_at-Stops line none h = absurd h
  keyword_at-Stops line (some k) h =
      let within : ltb (length line) k ≡ false = ground arith in
      rw within (word_between-ne_fault line _ _)

  keyword_at-StopsPast :
      (line : Bytes) (o : Option ℕ) → StopsPast o (length line) → keyword_at is_alnum line o ≡ fault
  unfolding keyword_at
  keyword_at-StopsPast line none h = refl
  keyword_at-StopsPast line (some k) h =
      let past : ltb (length line) k ≡ true = ground arith in rw past

  -- The search for the keyword reads outside the line exactly if the column of the cursor is
  -- greater than the number of visible characters.
  pub compute_keyword-fault_iff :
      (line : Bytes) (x : ℕ) → (compute_keyword is_alnum line x ≡ fault) ↔ (visible_width line < x)
  unfolding compute_keyword
  compute_keyword-fault_iff line x = (
    λ faulty. elim (dec_lt (visible_width line) x) [
      | yes past ↦ past
      | no within ↦ absurd (
          keyword_at-Stops line (seek line 0 x)
            (subst (Stops (seek line 0 x)) (zero-add (length line))
              (seek-Stops line 0 x (omega arith)))
            faulty)
    ],
    λ past.
        keyword_at-StopsPast line (seek line 0 x) (
          subst (StopsPast (seek line 0 x)) (zero-add (length line))
            (seek-StopsPast line 0 x past)),
  )
