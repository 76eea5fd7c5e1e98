-- ===== src/Plugin/Keyword.antt =====
-- `_ComputeKeyword` of yagi/src/plugin.cc: the word under the cursor of a line with color tags.
-- `start` and `end` are positions in the line, whose bytes a zero byte ends; `qisalnum` is IDA's.
pub mod Seek
pub mod Readback
pub mod Rewind
pub mod Words
pub mod Cursor
pub mod Faults
use yagi.Common.{
  ℕ, zero, suc, ◌+◌, ◌-◌, Bool, true, false, ◌&&◌, ◌||◌, not, List, [], ◌∷◌, Option, none, some,
  Bytes, ltb, leb, ◌==◌, if◌then◌else◌, length, take, drop, get_or,
}
use yagi.Print.Emit.{color_on, color_off}

abbrev pub is_tag : ℕ → Bool
is_tag c = c == color_on || c == color_off

-- The first loop: `start` after `x` visible characters. It reads the bytes from `start` on; a
-- position behind the final zero byte cannot be read, and the result is `none`.
pub seek : Bytes → ℕ → ℕ → Option ℕ
seek rest start zero = some start
seek [] start (suc zero) = some (start + 1)
seek [] start (suc (suc x)) = none
seek (c ∷ []) start (suc x) = elim (is_tag c) [ true ↦ none | false ↦ seek [] (start + 1) x ]
seek (c ∷ d ∷ rest) start (suc x) = elim (is_tag c) [
  | true ↦ seek rest (start + 2) (suc x)
  | false ↦ seek (d ∷ rest) (start + 1) x
]

-- The second loop: `end` at the next tag or zero byte.
pub scan_end : Bytes → ℕ → ℕ
scan_end [] end = end
scan_end (c ∷ rest) end = if is_tag c || c == 0 then end else scan_end rest (end + 1)

-- What the call does: it reads memory that is not the line's, finds no word, or finds one.
pub data Keyword : Type 0 where
  fault : Keyword
  no_word : Keyword
  word : Bytes → Keyword

module _ (is_alnum : ℕ → Bool) where
  -- `*start == COLOR_ON && !qisalnum(*(start+1))`.
  pub opens : Bytes → ℕ → Bool
  opens line i = get_or line i 0 == color_on && not (is_alnum (get_or line (i + 1) 0))

  -- The third loop walks `start` back. Its position is counted from one, so that `zero` is the
  -- position before the line, where the loop stops.
  pub rewind : Bytes → ℕ → ℕ
  unfolding opens
  rewind line zero = zero
  rewind line (suc i) = elim (opens line i) [ true ↦ suc i | false ↦ rewind line i ]

  -- `r` is the position of `start` counted from one, so `start + 2` is `r + 1`.
  pub word_between : Bytes → ℕ → ℕ → Keyword
  word_between line r end =
      if leb end (r + 1)
      then no_word
      else if leb (length line + 1) r
      then no_word
      else word (take (end - (r + 1)) (drop (r + 1) line))

  pub keyword_at : Bytes → Option ℕ → Keyword
  unfolding scan_end rewind word_between
  keyword_at line none = fault
  keyword_at line (some start) =
      if ltb (length line) start
      then fault
      else word_between line (rewind line (start + 1)) (scan_end (drop start line) start)

  pub compute_keyword : Bytes → ℕ → Keyword
  unfolding seek keyword_at
  compute_keyword line x = keyword_at line (seek line 0 x)
