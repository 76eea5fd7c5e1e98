-- ===== src/Plugin/Keyword/Cursor.antt =====
-- The word under a cursor that stands in a token of a printed line.
use yagi.Common.{
  ℕ, suc, ◌+◌, ◌<◌, ◌≡◌, ◌≢◌, refl, sym, ap, ◌∙◌, Bool, true, false, List, [], ◌∷◌, ◌++◌, some,
  arith, Bytes, length, length-append, All, get_or, ◌⊎◌, inl, inr, append_assoc, All-append_left,
  All-append_right,
}
use native.Mathlib.Nat.{add-zero, zero-add}
use yagi.Print.Emit.{color_on, color_off, color_default}
use yagi.Print.Tokens.{Token, shown, token_color, token_color-IsColor, emit-tagged}
use yagi.Plugin.Keyword.{word, seek, keyword_at, compute_keyword}
use yagi.Plugin.Keyword.Seek.{
  IsVisible, Piece, token, line, width, IsClean, piece_bytes, seek-line, seek-append, seek_tag,
}
use yagi.Plugin.Keyword.Words.{keyword_whole, keyword_cut}

-- The first loop stops behind the visible part `u` of the token.
seek_token :
    (before : List Piece) (color : ℕ) (u w : Bytes)
    → IsClean before
    → All IsVisible u
    → 0 < length u
    → seek (line before ++ color_on ∷ color ∷ (u ++ w)) 0 (width before + length u)
      ≡ some (length (line before) + 2 + length u)
seek_token before color [] w _ _ h = absurd (omega arith)
seek_token before color (c ∷ u) w clean visible _ =
    let here = length (line before) in
    seek-line before (color_on ∷ color ∷ (c ∷ u ++ w)) 0 (length u) clean
    ∙ ap (λ n. seek (color_on ∷ color ∷ (c ∷ u ++ w)) n (suc (length u))) (zero-add here)
    ∙ seek_tag color_on color (c ∷ u ++ w) here (length u) refl
    ∙ ap (seek (c ∷ u ++ w) (here + 2)) (sym (add-zero (suc (length u))))
    ∙ seek-append (c ∷ u) w (here + 2) 0 visible
    ∙ unfold seek in refl

-- The bytes of a token behind a line, and what follows it.
token_bytes :
    (before : List Piece) (t : Token) (u v after : Bytes)
    → shown t ≡ u ++ v
    → line before ++ (piece_bytes (token t) ++ after)
      ≡ line before ++ color_on ∷ token_color t ∷ ((u ++ v) ++ color_off ∷ token_color t ∷ after)
unfolding piece_bytes
token_bytes before t u v after e =
    rw (emit-tagged, e)
      (ap (λ s. line before ++ color_on ∷ token_color t ∷ s) (append_assoc (u ++ v) _ after))

first-append : (s z : Bytes) → 0 < length s → get_or (s ++ z) 0 0 ≡ get_or s 0 0
first-append [] z h = absurd (omega arith)
first-append (c ∷ s) z h = refl

module _ (is_alnum : ℕ → Bool) (before : List Piece) (t : Token) (u v after : Bytes)
    (clean : IsClean before) (visible : All IsVisible (shown t)) (split : shown t ≡ u ++ v)
    (inside : 0 < length u) where
  IsVisible-uv : All IsVisible (u ++ v)
  IsVisible-uv = rw split at visible

  compute_at :
      compute_keyword is_alnum
        (line before ++ (piece_bytes (token t) ++ after))
        (width before + length u)
      ≡ keyword_at is_alnum
          (line before
            ++ color_on ∷ token_color t ∷ ((u ++ v) ++ color_off ∷ token_color t ∷ after))
          (some (length (line before) + 2 + length u))
  unfolding compute_keyword
  compute_at = rw (token_bytes before t u v after split) (
      ap (keyword_at is_alnum _) (
        ap (λ w. seek (line before ++ color_on ∷ token_color t ∷ w) 0 (width before + length u))
          (append_assoc u v (color_off ∷ token_color t ∷ after))
        ∙ seek_token before (token_color t) u _ clean (All-append_left IsVisible u v IsVisible-uv)
            inside))

  -- Where the cursor stands in a token of a printed line, behind its first character and with
  -- visible characters in the line up to it, the keyword is the whole text of the token, if the
  -- color of the token is not the default one or its first character is alphanumeric, and if no
  -- byte below the digits is alphanumeric.
  pub keyword_within :
      ((c : ℕ) → c < b'0' → is_alnum c ≡ false)
      → (token_color t ≢ color_default) ⊎ (is_alnum (get_or (shown t) 0 0) ≡ true)
      → compute_keyword is_alnum
          (line before ++ (piece_bytes (token t) ++ after))
          (width before + length u)
        ≡ word (shown t)
  keyword_within ascii start =
      let uv : 0 < length (u ++ v) = omega (arith, length-append {0} u v) in
      let first : get_or ((u ++ v) ++ color_off ∷ token_color t ∷ after) 0 0
          ≡ get_or (shown t) 0 0 =
        first-append (u ++ v) _ uv ∙ ap (λ s. get_or s 0 0) (sym split) in
      compute_at
      ∙ keyword_whole is_alnum (line before) (token_color t) u v (token_color t ∷ after)
          IsVisible-uv (All-append_right IsVisible u v IsVisible-uv) inside
          (ascii (token_color t) (omega (arith, token_color-IsColor t)))
          (elim start [ inl n ↦ inl n | inr a ↦ inr (ap is_alnum first ∙ a) ])
      ∙ ap word (sym split)

  -- Where the cursor stands in a token of a printed line, behind its first character and with
  -- visible characters in the line up to it, the color of the token is the default one, its first
  -- character is not alphanumeric and others follow, the keyword is the text of the token without
  -- its first character.
  pub keyword_misses_first :
      (c : ℕ) (w : Bytes)
      → token_color t ≡ color_default
      → shown t ≡ c ∷ w
      → is_alnum c ≡ false
      → 0 < length w
      → compute_keyword is_alnum
          (line before ++ (piece_bytes (token t) ++ after))
          (width before + length u)
        ≡ word w
  keyword_misses_first c w plain text start more =
      compute_at
      ∙ keyword_cut is_alnum (line before) (token_color t) u v (token_color t ∷ after) c w
          (sym split ∙ text) IsVisible-uv (All-append_right IsVisible u v IsVisible-uv) inside more
          plain start
