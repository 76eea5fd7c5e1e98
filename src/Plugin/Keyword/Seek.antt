-- ===== src/Plugin/Keyword/Seek.antt =====
-- The first and the second loop on a line that is made of pieces.
use yagi.Common.{
  ℕ, suc, ◌+◌, ◌≡◌, ◌≢◌, refl, sym, ap, true, List, [], ◌∷◌, ◌++◌, arith, Bytes, length,
  length-append, All, append_assoc, ap₂,
}
use mathlib.Core.Path.{◌≡⟨◌⟩◌, ◌∎}
use native.Mathlib.Nat.{zero-add, add-zero}
use yagi.Print.Emit.{color_on, color_off}
use yagi.Print.Tokens.{Token, shown, emit, written, token_color, tagged, emit-tagged}
use yagi.Plugin.Keyword.{is_tag, seek, scan_end}

-- A byte that a reader sees: no color tag, and not the end of a string.
abbrev pub IsVisible : ℕ → Type 0
IsVisible c = (c ≢ 0) × (c ≢ color_on) × (c ≢ color_off)

-- The parts of a printed line: a token, or the space that the printer puts between tokens.
pub data Piece : Type 0 where
  token : Token → Piece
  space : Bytes → Piece

abbrev pub piece_text : Piece → Bytes
piece_text (token t) = shown t
piece_text (space s) = s

unfoldable pub piece_bytes : Piece → Bytes
piece_bytes (token t) = written (emit t)
piece_bytes (space s) = s

abbrev pub line : List Piece → Bytes
line [] = []
line (p ∷ ps) = piece_bytes p ++ line ps

-- The visible width.
abbrev pub width : List Piece → ℕ
width [] = 0
width (p ∷ ps) = length (piece_text p) + width ps

abbrev pub IsClean : List Piece → Type 0
IsClean = All (λ p. All IsVisible (piece_text p))

pub seek_tag :
    (c d : ℕ) (rest : Bytes) (start x : ℕ)
    → is_tag c ≡ true
    → seek (c ∷ d ∷ rest) start (suc x) ≡ seek rest (start + 2) (suc x)
unfolding seek
seek_tag c d rest start x h = rw (h, seek)

seek_visible :
    (c : ℕ) (rest : Bytes) (start x : ℕ)
    → IsVisible c
    → seek (c ∷ rest) start (suc x) ≡ seek rest (start + 1) x
unfolding seek
seek_visible c [] start x h = ground arith
seek_visible c (d ∷ rest) start x h = ground arith

pub seek-append :
    (s rest : Bytes) (start x : ℕ)
    → All IsVisible s
    → seek (s ++ rest) start (length s + x) ≡ seek rest (start + length s) x
seek-append [] rest start x _ = cc (zero-add x, add-zero start)
seek-append (c ∷ s) rest start x (h, hs) =
    let more : suc (length s) + x ≡ suc (length s + x) = omega arith in
    let there : start + 1 + length s ≡ start + suc (length s) = omega arith in
    rw (
      more,
      seek_visible c (s ++ rest) start (length s + x) h,
      seek-append s rest (start + 1) x hs,
      there,
    )

pub seek-tagged :
    (color : ℕ) (s rest : Bytes) (start x : ℕ)
    → All IsVisible s
    → seek (tagged color s ++ rest) start (length s + suc x)
      ≡ seek rest (start + length (tagged color s)) (suc x)
seek-tagged color s rest start x h =
    let more : suc (length s + x) ≡ length s + suc x = omega arith in
    let there : start + 2 + length s + 2 ≡ start + length (tagged color s) =
      omega (arith, length-append {0} s (color_off ∷ color ∷ [])) in
    seek (tagged color s ++ rest) start (length s + suc x)
    ≡⟨ ap (seek (tagged color s ++ rest) start) (sym more) ⟩
      seek (tagged color s ++ rest) start (suc (length s + x))
    ≡⟨ seek_tag color_on color _ start (length s + x) refl ⟩
      seek ((s ++ color_off ∷ color ∷ []) ++ rest) (start + 2) (suc (length s + x))
    ≡⟨ ap₂ (λ u n. seek u (start + 2) n) (append_assoc s (color_off ∷ color ∷ []) rest) more ⟩
      seek (s ++ color_off ∷ color ∷ rest) (start + 2) (length s + suc x)
    ≡⟨ seek-append s (color_off ∷ color ∷ rest) (start + 2) (suc x) h ⟩
      seek (color_off ∷ color ∷ rest) (start + 2 + length s) (suc x)
    ≡⟨ seek_tag color_off color rest (start + 2 + length s) x refl ⟩
      seek rest (start + 2 + length s + 2) (suc x)
    ≡⟨ ap (λ n. seek rest n (suc x)) there ⟩ seek rest (start + length (tagged color s)) (suc x) ∎

seek-piece :
    (p : Piece) (rest : Bytes) (start x : ℕ)
    → All IsVisible (piece_text p)
    → seek (piece_bytes p ++ rest) start (length (piece_text p) + suc x)
      ≡ seek rest (start + length (piece_bytes p)) (suc x)
unfolding piece_bytes
seek-piece (token t) rest start x h =
    rw emit-tagged (seek-tagged (token_color t) (shown t) rest start x h)
seek-piece (space s) rest start x h = seek-append s rest start (suc x) h

-- Clean pieces are stepped over whole.
pub seek-line :
    (ps : List Piece) (rest : Bytes) (start x : ℕ)
    → IsClean ps
    → seek (line ps ++ rest) start (width ps + suc x) ≡ seek rest (start + length (line ps)) (suc x)
seek-line [] rest start x _ = cc (zero-add (suc x), add-zero start)
seek-line (p ∷ ps) rest start x (h, hs) =
    let w = length (piece_text p) in
    let more : w + width ps + suc x ≡ w + suc (width ps + x) = omega arith in
    let more' : suc (width ps + x) ≡ width ps + suc x = omega arith in
    let there : start + length (piece_bytes p) + length (line ps) ≡ start + length (line (p ∷ ps)) =
      omega (arith, length-append {0} (piece_bytes p) (line ps)) in
    rw (
      more,
      append_assoc,
      seek-piece p (line ps ++ rest) start (width ps + x) h,
      more',
      seek-line ps rest (start + length (piece_bytes p)) x hs,
      there,
    )

pub scan_end-append :
    (s rest : Bytes) (c end : ℕ)
    → All IsVisible s
    → is_tag c ≡ true
    → scan_end (s ++ c ∷ rest) end ≡ end + length s
unfolding scan_end
scan_end-append [] rest c end _ tag = rw tag (omega arith)
scan_end-append (d ∷ s) rest c end (h, hs) tag =
    ground (arith, scan_end-append s rest c (end + 1) hs tag)
