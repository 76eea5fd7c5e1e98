-- ===== src/Plugin/Keyword/Readback.antt =====
-- Lines of a view read back: the tags of yagi/src/print.cc around the texts of their tokens.
use yagi.Common.{
  ℕ, ◌≡◌, refl, ap, List, [], ◌∷◌, ◌++◌, append_assoc, Option, none, some, arith, Bytes, ◌==◌,
  if◌then◌else◌, Lacks, All, Bool-cases, inl, inr, sym, ◌∙◌, ◌⊎◌, codes, bytes_eq, bytes_eq→≡, take,
  drop, true, append-take-drop,
}
use yagi.Print.Emit.{strip_import, is_import_name, color_on, color_off}
use yagi.Print.Tokens.{Token, shown, tagged, token_color, emit-tagged}
use yagi.Plugin.Keyword.Seek.{Piece, token, space, piece_text, piece_bytes, line}

-- Where the reader of a line is: outside the tags or within those of a color, and behind the byte
-- that opens or closes a tag.
pub data Place : Type 0 where
  outside opening : Place
  within closing : ℕ → Place

-- The byte in front of the text that is read, if there is one.
abbrev pub shows : ℕ → Option Bytes → Option Bytes
shows c none = none
shows c (some s) = some (c ∷ s)

-- The text of a line without its tags. There is none where a tag is opened within another, a tag
-- is closed that is not open, or with another color, or one is left open.
abbrev pub untagged : Place → Bytes → Option Bytes
untagged outside [] = some []
untagged opening [] = none
untagged (within color) [] = none
untagged (closing color) [] = none
untagged outside (c ∷ s) =
    let opened = untagged opening s in
    let plain = untagged outside s in
    if c == color_on then opened else if c == color_off then none else shows c plain
untagged opening (c ∷ s) = untagged (within c) s
untagged (within color) (c ∷ s) =
    let closed = untagged (closing color) s in
    let plain = untagged (within color) s in
    if c == color_off then closed else if c == color_on then none else shows c plain
untagged (closing color) (c ∷ s) =
    let rest = untagged outside s in if c == color then rest else none

abbrev pub line_text : List Piece → Bytes
line_text [] = []
line_text (p ∷ pieces) = piece_text p ++ line_text pieces

-- A name without the mark of an import, if it has one.
abbrev pub IsBare : Bytes → Bytes → Type 0
IsBare name bare =
    (name ≡ codes "__imp_" ++ bare)
    ⊎ (((rest : Bytes) → ¬ (name ≡ codes "__imp_" ++ rest)) × (bare ≡ name))

-- What a reader sees of a piece, and of pieces one after another.
abbrev pub Shows : Piece → Bytes → Type 0
Shows (space s) b = b ≡ s
Shows (token (Token.opening o)) b = b ≡ o ∷ []
Shows (token (Token.closing c)) b = b ≡ c ∷ []
Shows (token (Token.operator s hl)) b = b ≡ s
Shows (token (Token.field s hl)) b = b ≡ s
Shows (token (Token.label s hl)) b = b ≡ s
Shows (token (Token.text s hl)) b = b ≡ s
Shows (token (Token.typing s hl)) b = b ≡ s
Shows (token (Token.variable s hl has_op)) b = IsBare s b
Shows (token (Token.function s hl)) b = IsBare s b

abbrev pub Reads : List Piece → Bytes → Type 0
Reads [] text = text ≡ []
Reads (p ∷ pieces) text =
    (seen : Bytes) × (rest : Bytes) × (text ≡ seen ++ rest) × Shows p seen × Reads pieces rest

strip_import-IsBare : (s : Bytes) → IsBare s (strip_import s)
unfolding strip_import is_import_name
strip_import-IsBare s = elim (Bool-cases (bytes_eq (take 6 s) (codes "__imp_"))) [
  | inl e ↦
      let front : take 6 s ≡ codes "__imp_" = bytes_eq→≡ (take 6 s) (codes "__imp_") e in
      rw e (inl (sym (append-take-drop 6 s) ∙ ap (λ f. f ++ drop 6 s) front))
  | inr e ↦ rw e (
      inr (
        λ rest is. let marked : bytes_eq (take 6 s) (codes "__imp_") ≡ true = rw is refl in cc,
        refl,
      ))
]

piece_text-Shows : (p : Piece) → Shows p (piece_text p)
piece_text-Shows (space s) = refl
piece_text-Shows (token (Token.opening o)) = refl
piece_text-Shows (token (Token.closing c)) = refl
piece_text-Shows (token (Token.operator s hl)) = refl
piece_text-Shows (token (Token.field s hl)) = refl
piece_text-Shows (token (Token.label s hl)) = refl
piece_text-Shows (token (Token.text s hl)) = refl
piece_text-Shows (token (Token.typing s hl)) = refl
piece_text-Shows (token (Token.variable s hl has_op)) = strip_import-IsBare s
piece_text-Shows (token (Token.function s hl)) = strip_import-IsBare s

line_text-Reads : (pieces : List Piece) → Reads pieces (line_text pieces)
line_text-Reads [] = refl
line_text-Reads (p ∷ pieces) =
    (piece_text p, line_text pieces, refl, piece_text-Shows p, line_text-Reads pieces)

-- A text without the bytes of tags.
abbrev pub IsPlain : Bytes → Type 0
IsPlain s = Lacks color_on s × Lacks color_off s

abbrev in_front : Bytes → Option Bytes → Option Bytes
in_front [] o = o
in_front (c ∷ s) o = shows c (in_front s o)

untagged-within :
    (color : ℕ) (s rest : Bytes)
    → IsPlain s
    → untagged (within color) (s ++ color_off ∷ color ∷ rest) ≡ in_front s (untagged outside rest)
untagged-within color [] rest plain = ground arith
untagged-within color (c ∷ s) rest ((on, ons), (off, offs)) =
    ground (arith, untagged-within color s rest (ons, offs))

untagged-tagged :
    (color : ℕ) (s rest : Bytes)
    → IsPlain s
    → untagged outside (tagged color s ++ rest) ≡ in_front s (untagged outside rest)
untagged-tagged color s rest plain = rw append_assoc (untagged-within color s rest plain)

in_front-some : (s rest : Bytes) → in_front s (some rest) ≡ some (s ++ rest)
in_front-some [] rest = refl
in_front-some (c ∷ s) rest = ap (shows c) (in_front-some s rest)

untagged-space :
    (s rest : Bytes) → IsPlain s → untagged outside (s ++ rest) ≡ in_front s (untagged outside rest)
untagged-space [] rest plain = refl
untagged-space (c ∷ s) rest ((on, ons), (off, offs)) =
    ground (arith, untagged-space s rest (ons, offs))

untagged-piece :
    (p : Piece) (rest : Bytes)
    → IsPlain (piece_text p)
    → untagged outside (piece_bytes p ++ rest) ≡ in_front (piece_text p) (untagged outside rest)
unfolding piece_bytes
untagged-piece (token t) rest plain =
    rw emit-tagged (untagged-tagged (token_color t) (shown t) rest plain)
untagged-piece (space s) rest plain = untagged-space s rest plain

untagged-line_text :
    (pieces : List Piece)
    → All (λ p. IsPlain (piece_text p)) pieces
    → untagged outside (line pieces) ≡ some (line_text pieces)
untagged-line_text [] plain = refl
untagged-line_text (p ∷ pieces) (h, plain) =
    rw (untagged-piece p (line pieces) h, untagged-line_text pieces plain)
      (in_front-some (piece_text p) (line_text pieces))

-- A printed line, of tokens that `IdaEmit` prints and of other texts between them, none of them
-- with a byte of a tag, is read back: no tag is opened within another, each is closed with its
-- own color, and without the tags the line is the texts of its pieces one after another, where a
-- variable or a function that begins with the mark of an import has lost it once.
pub untagged-line :
    (pieces : List Piece)
    → All (λ p. IsPlain (piece_text p)) pieces
    → (text : Bytes) × Reads pieces text × (untagged outside (line pieces) ≡ some text)
untagged-line pieces plain =
    (line_text pieces, line_text-Reads pieces, untagged-line_text pieces plain)
