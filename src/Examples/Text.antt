-- ===== src/Examples/Text.antt =====
-- A printed line, and the word under a cursor in it.
use yagi.Common.{
  Bytes, ℕ, ◌+◌, ◌<◌, ◌≡◌, ◌↔◌, refl, false, List, [], ◌∷◌, ◌++◌, arith, codes, inr, All, some,
}
use yagi.Logger.{info, error}
use yagi.Logger.Lines.{log_line, info-prints}
use yagi.Print.Emit.{Highlight, strip_import, is_import_name, guard_color}
use yagi.Print.Tokens.{Token}
use yagi.Plugin.Keyword.{word, fault, compute_keyword}
use yagi.Plugin.Keyword.Readback.{Reads, IsPlain, outside, untagged, untagged-line}
use yagi.Plugin.Keyword.Seek.{
  piece_text, Piece, token, space, line, width, piece_bytes, IsVisible, IsClean,
}
use yagi.Plugin.Keyword.Cursor.{keyword_within, keyword_misses_first}
use yagi.Plugin.Keyword.Faults.{visible_width, compute_keyword-fault_iff}
use yagi.Examples.Database.{is_ascii_alnum}

abbrev imported : Token
imported = Token.function (codes "__imp_puts") Highlight.funcname_color

-- `int ` in front of the token.
abbrev front : List Piece
front = token (Token.typing (codes "int") Highlight.type_color) ∷ space (codes " ") ∷ []

abbrev started : Token
started = Token.function (codes "_start") Highlight.funcname_color

-- `int puts`, of an import.
abbrev declared : List Piece
declared =
    token (Token.typing (codes "int") Highlight.type_color)
    ∷ space (codes " ")
    ∷ token imported
    ∷ []

declared-IsPlain : All (λ p. IsPlain (piece_text p)) declared
unfolding strip_import is_import_name
declared-IsPlain = ground arith

untagged-line_example :
    (text : Bytes) × Reads declared text × (untagged outside (line declared) ≡ some text)
untagged-line_example = untagged-line declared declared-IsPlain

front-IsClean : IsClean front
front-IsClean = ground arith

puts-IsVisible : All IsVisible (codes "puts")
puts-IsVisible = ground arith

start-IsVisible : All IsVisible (codes "_start")
start-IsVisible = ground arith

-- No byte below the digits.
not_alnum : (c : ℕ) → c < b'0' → is_ascii_alnum c ≡ false
not_alnum c h = ground arith

keyword_within_example :
    compute_keyword is_ascii_alnum
      (line front ++ (piece_bytes (token imported) ++ codes "()"))
      (width front + 2)
    ≡ word (codes "puts")
unfolding strip_import is_import_name guard_color
keyword_within_example =
    keyword_within is_ascii_alnum front imported (codes "pu") (codes "ts") (codes "()")
      front-IsClean puts-IsVisible refl (omega arith) not_alnum (inr refl)

keyword_misses_first_example :
    compute_keyword is_ascii_alnum
      (line front ++ (piece_bytes (token started) ++ codes "()"))
      (width front + 2)
    ≡ word (codes "start")
unfolding strip_import is_import_name guard_color
keyword_misses_first_example =
    keyword_misses_first is_ascii_alnum front started (codes "_s") (codes "tart") (codes "()")
      front-IsClean start-IsVisible refl (omega arith) b'_' (codes "start") refl refl refl
      (omega arith)

compute_keyword-fault_iff_example :
    (compute_keyword is_ascii_alnum (codes "int x;") 9 ≡ fault)
    ↔ (visible_width (codes "int x;") < 9)
compute_keyword-fault_iff_example = compute_keyword-fault_iff is_ascii_alnum (codes "int x;") 9

info-prints_example :
    (info (λ s. s) (codes "Found symbol") (codes "main" ∷ codes " at " ∷ []) []
      ≡ log_line (codes "INFO") (codes "Found symbol") (codes "main" ∷ codes " at " ∷ []))
    × (error (λ s. s) (codes "Found symbol") (codes "main" ∷ codes " at " ∷ []) []
        ≡ log_line (codes "ERROR") (codes "Found symbol") (codes "main" ∷ codes " at " ∷ []))
info-prints_example =
    info-prints (λ s. s) (λ s h. refl) (codes "Found symbol") [] (codes "main" ∷ codes " at " ∷ [])
      (ground arith, (ground arith, (ground arith, tt)))
