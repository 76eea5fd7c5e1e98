-- ===== src/Plugin/Keyword/Rewind.antt =====
-- The third loop on a line that holds a tagged text.
use yagi.Common.{
  ℕ, zero, suc, ◌+◌, ◌≤◌, ◌<◌, ◌≡◌, ◌≢◌, ap, ◌∙◌, Bool, true, false, ◌&&◌, not, [], ◌∷◌, ◌++◌,
  arith, Bytes, ◌==◌, length, All, get_or, get_or-append_length, ◌⊎◌,
}
use yagi.Print.Emit.{color_on, color_off}
use yagi.Plugin.Keyword.{opens, rewind}
use yagi.Plugin.Keyword.Seek.{IsVisible}

-- No byte of a visible text, nor the tag behind it, opens a color.
get_or-ne_on :
    (s z : Bytes) (j : ℕ)
    → All IsVisible s
    → j ≤ length s
    → get_or (s ++ color_off ∷ z) j 0 ≢ color_on
get_or-ne_on [] z zero _ _ e = omega arith
get_or-ne_on [] z (suc j) _ h e = absurd (omega arith)
get_or-ne_on (c ∷ s) z zero (h, _) _ e = h.1 e
get_or-ne_on (c ∷ s) z (suc j) (_, hs) h e = get_or-ne_on s z j hs (omega arith) e

module _ (is_alnum : ℕ → Bool) where
  rewind_closed :
      (line : Bytes) (i : ℕ)
      → opens is_alnum line i ≡ false
      → rewind is_alnum line (suc i) ≡ rewind is_alnum line i
  unfolding rewind
  rewind_closed line i e = rw (e, rewind)

  rewind_open :
      (line : Bytes) (i : ℕ) → opens is_alnum line i ≡ true → rewind is_alnum line (suc i) ≡ suc i
  unfolding rewind
  rewind_open line i e = rw (e, rewind)

  rewind_skip :
      (line : Bytes) (m k : ℕ)
      → ((j : ℕ) → j < k → opens is_alnum line (m + j) ≡ false)
      → rewind is_alnum line (m + k) ≡ rewind is_alnum line m
  rewind_skip line m zero h = ap (rewind is_alnum line) (omega arith)
  rewind_skip line m (suc k) h =
      let e : m + suc k ≡ suc (m + k) = omega arith in
      let closed = h k (omega arith) in
      rw (e, rewind_closed line (m + k) closed) (rewind_skip line m k (λ j lt. h j (omega arith)))

module _ (is_alnum : ℕ → Bool) (b : Bytes) (color : ℕ) (s z : Bytes)
    (visible : All IsVisible s) where
  abbrev pub tagged_line : Bytes
  tagged_line = b ++ color_on ∷ color ∷ (s ++ color_off ∷ z)

  text_at :
      (j : ℕ) → get_or tagged_line (length b + suc (suc j)) 0 ≡ get_or (s ++ color_off ∷ z) j 0
  text_at j = get_or-append_length b _ (suc (suc j)) 0

  opens_text : (j : ℕ) → j ≤ length s → opens is_alnum tagged_line (length b + 2 + j) ≡ false
  unfolding opens
  opens_text j h =
      let e : length b + 2 + j ≡ length b + suc (suc j) = omega arith in
      let other = get_or-ne_on s z j visible h in rw (e, text_at j) (ground arith)

  -- From the text or the tag behind it back to the color byte.
  rewind_text :
      (k : ℕ)
      → k ≤ length s + 1
      → rewind is_alnum tagged_line (length b + 2 + k) ≡ rewind is_alnum tagged_line (length b + 2)
  rewind_text k h =
      rewind_skip is_alnum tagged_line (length b + 2) k (λ j lt. opens_text j (omega arith))

  opens_color :
      opens is_alnum tagged_line (suc (length b))
      ≡ (color == color_on && not (is_alnum (get_or (s ++ color_off ∷ z) 0 0)))
  unfolding opens
  opens_color =
      let here : suc (length b) ≡ length b + suc zero = omega arith in
      let next : length b + suc zero + 1 ≡ length b + suc (suc zero) = omega arith in
      rw (here, next, text_at 0, get_or-append_length b _ (suc zero) 0)

  opens_on : opens is_alnum tagged_line (length b) ≡ not (is_alnum color)
  unfolding opens
  opens_on =
      let here : length b ≡ length b + zero = omega arith in
      let on : get_or tagged_line (length b) 0 ≡ color_on =
        ap (λ n. get_or tagged_line n 0) here ∙ get_or-append_length b _ zero 0 in
      let next : get_or tagged_line (length b + 1) 0 ≡ color =
        get_or-append_length b _ (suc zero) 0 in
      rw (on, next)

  two_back : length b + 2 ≡ suc (suc (length b))
  two_back = omega arith

  -- The color byte is passed over unless it looks like a tag before a text.
  pub rewind_color :
      (k : ℕ)
      → k ≤ length s + 1
      → is_alnum color ≡ false
      → (color ≢ color_on) ⊎ (is_alnum (get_or (s ++ color_off ∷ z) 0 0) ≡ true)
      → rewind is_alnum tagged_line (length b + 2 + k) ≡ suc (length b)
  rewind_color k h c start =
      let closed : opens is_alnum tagged_line (suc (length b)) ≡ false =
        ground (arith, opens_color) in
      rw (rewind_text k h, two_back, rewind_closed is_alnum tagged_line (suc (length b)) closed)
        (rewind_open is_alnum tagged_line (length b) (rw (opens_on, c)))

  -- Where it does, it is taken for the tag.
  pub rewind_mistaken :
      (k : ℕ)
      → k ≤ length s + 1
      → color ≡ color_on
      → is_alnum (get_or (s ++ color_off ∷ z) 0 0) ≡ false
      → rewind is_alnum tagged_line (length b + 2 + k) ≡ suc (suc (length b))
  rewind_mistaken k h c start =
      let open_ : opens is_alnum tagged_line (suc (length b)) ≡ true =
        ground (arith, opens_color) in
      rw (rewind_text k h, two_back) (rewind_open is_alnum tagged_line (suc (length b)) open_)
