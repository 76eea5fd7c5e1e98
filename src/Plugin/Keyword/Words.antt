-- ===== src/Plugin/Keyword/Words.antt =====
-- The word under the cursor against the token that the emitter wrote there.
use yagi.Common.{
  ℕ, suc, ◌+◌, ◌-◌, ◌<◌, ◌≡◌, ◌≢◌, refl, sym, ap, ◌∙◌, Bool, true, false, [], ◌∷◌, ◌++◌, some,
  arith, Bytes, length, length-append, All, get_or, ◌⊎◌, drop, take, append_assoc, drop-append_eq,
  take-append_eq, ltb, leb,
}
use yagi.Print.Emit.{color_on, color_off}
use yagi.Plugin.Keyword.{word, scan_end, rewind, word_between, keyword_at}
use yagi.Plugin.Keyword.Seek.{IsVisible, scan_end-append}
use yagi.Plugin.Keyword.Rewind.{rewind_color, rewind_mistaken}

module _ (is_alnum : ℕ → Bool) (b : Bytes) (color : ℕ) (u v z : Bytes) where
  -- A text `u ++ v` between its tags, behind `b`; the cursor stands behind `u`.
  abbrev cursor_line : Bytes
  cursor_line = b ++ color_on ∷ color ∷ ((u ++ v) ++ color_off ∷ z)

  abbrev cursor : ℕ
  cursor = length b + 2 + length u

  length_line : length cursor_line ≡ length b + 3 + length u + length v + length z
  length_line = omega (
    arith,
    length-append {0} b (color_on ∷ color ∷ ((u ++ v) ++ color_off ∷ z)),
    length-append {0} (u ++ v) (color_off ∷ z),
    length-append {0} u v,
  )

  before_cursor : cursor_line ≡ (b ++ color_on ∷ color ∷ u) ++ (v ++ color_off ∷ z)
  before_cursor = simp append_assoc

  end_at : All IsVisible v → scan_end (drop cursor cursor_line) cursor ≡ cursor + length v
  end_at visible =
      let here = length-append {0} b (color_on ∷ color ∷ u) in
      rw
        (
          before_cursor,
          drop-append_eq (b ++ color_on ∷ color ∷ u) (v ++ color_off ∷ z) cursor
              (omega (arith, here)),
        )
        (scan_end-append v z color_off cursor visible refl)

  -- The word from the byte behind `p` on.
  word_at :
      (r : ℕ) (p w : Bytes)
      → cursor_line ≡ p ++ (w ++ color_off ∷ z)
      → r + 1 ≡ length p
      → cursor + length v ≡ length p + length w
      → 0 < length w
      → word_between is_alnum cursor_line r (cursor + length v) ≡ word w
  unfolding word_between
  word_at r p w split behind end some_ =
      let longer : leb (cursor + length v) (r + 1) ≡ false = ground arith in
      let within : leb (length cursor_line + 1) r ≡ false = ground (arith, length_line) in
      let rest : drop (r + 1) cursor_line ≡ w ++ color_off ∷ z =
        ap (drop (r + 1)) split ∙ drop-append_eq p _ (r + 1) behind in
      let exact : take (cursor + length v - (r + 1)) (w ++ color_off ∷ z) ≡ w =
        take-append_eq w _ _ (omega arith) in
      rw (longer, within, rest, exact)

  keyword_at-cursor :
      (r : ℕ) (p w : Bytes)
      → All IsVisible v
      → rewind is_alnum cursor_line (cursor + 1) ≡ r
      → cursor_line ≡ p ++ (w ++ color_off ∷ z)
      → r + 1 ≡ length p
      → cursor + length v ≡ length p + length w
      → 0 < length w
      → keyword_at is_alnum cursor_line (some cursor) ≡ word w
  unfolding keyword_at
  keyword_at-cursor r p w visible back split behind end some_ =
      let within : ltb (length cursor_line) cursor ≡ false = ground (arith, length_line) in
      rw (within, back, end_at visible) (word_at r p w split behind end some_)

  -- The whole text, wherever in it the cursor stands.
  pub keyword_whole :
      All IsVisible (u ++ v)
      → All IsVisible v
      → 0 < length u
      → is_alnum color ≡ false
      → (color ≢ color_on) ⊎ (is_alnum (get_or ((u ++ v) ++ color_off ∷ z) 0 0) ≡ true)
      → keyword_at is_alnum cursor_line (some cursor) ≡ word (u ++ v)
  keyword_whole visible visible_v some_ c start =
      let uv = length-append {0} u v in
      let far : cursor + 1 ≡ length b + 2 + (length u + 1) = omega arith in
      let pre = length-append {0} b (color_on ∷ color ∷ []) in
      keyword_at-cursor (suc (length b)) (b ++ color_on ∷ color ∷ []) (u ++ v) visible_v
        (ap (rewind is_alnum cursor_line) far
          ∙ rewind_color is_alnum b color (u ++ v) z visible (length u + 1) (omega (arith, uv)) c
              start)
        (sym (append_assoc b (color_on ∷ color ∷ []) _)) (omega (arith, pre))
        (omega (arith, uv, pre)) (omega (arith, uv))

  -- The text without its first byte, where the color byte is taken for a tag.
  pub keyword_cut :
      (c : ℕ) (w : Bytes)
      → u ++ v ≡ c ∷ w
      → All IsVisible (u ++ v)
      → All IsVisible v
      → 0 < length u
      → 0 < length w
      → color ≡ color_on
      → is_alnum c ≡ false
      → keyword_at is_alnum cursor_line (some cursor) ≡ word w
  keyword_cut c w text visible visible_v some_ more tag start =
      let uv = length-append {0} u v in
      let cw : length (u ++ v) ≡ suc (length w) = ap length text in
      let far : cursor + 1 ≡ length b + 2 + (length u + 1) = omega arith in
      let pre = length-append {0} b (color_on ∷ color ∷ c ∷ []) in
      keyword_at-cursor (suc (suc (length b))) (b ++ color_on ∷ color ∷ c ∷ []) w visible_v
        (ap (rewind is_alnum cursor_line) far
          ∙ rewind_mistaken is_alnum b color (u ++ v) z visible (length u + 1) (omega (arith, uv))
              tag (ap (λ t. is_alnum (get_or (t ++ color_off ∷ z) 0 0)) text ∙ start))
        (ap (λ t. b ++ color_on ∷ color ∷ (t ++ color_off ∷ z)) text
          ∙ sym (append_assoc b (color_on ∷ color ∷ c ∷ []) _))
        (omega (arith, pre)) (omega (arith, uv, cw, pre)) more
