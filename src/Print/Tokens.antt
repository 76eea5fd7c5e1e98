-- ===== src/Print/Tokens.antt =====
-- What the methods of yagi/src/print.cc write, as text between color tags.
use yagi.Common.{
  ℕ, ◌≡◌, refl, Bool, true, false, List, [], ◌∷◌, ◌++◌, arith, Bytes, if◌then◌else◌, ◌||◌, ◌⊎◌, inl,
  inr, get_or, Bool-cases,
}
use yagi.Print.Emit.{
  Highlight, Call, print_text, print_hl, open_paren, close_paren, tag_op, tag_variable,
  tag_func_name, tag_field, tag_label, tag_type, color_on, color_off, color_default, color_keyword,
  color_impname, color_dstr, color_dref, color_rptcmt, guard_color, is_import_name, strip_import,
  is_c_token, guarded, start_color_tag, end_color_tag, is_string, is_unicode_string, emit_variable,
  emit_func_name, emit_print, emit_open_paren, emit_close_paren, emit_op, emit_field, emit_label,
  emit_type,
}

-- The text of a call. The parent class writes it as it is given, in the order of the calls; what it
-- adds are spaces and line breaks between tokens.
abbrev pub call_text : Call → Bytes
call_text (print_text s) = s
call_text (print_hl s hl) = s
call_text (open_paren o) = o ∷ []
call_text (close_paren c) = c ∷ []
call_text (tag_op s hl) = s
call_text (tag_variable s hl) = s
call_text (tag_func_name s hl) = s
call_text (tag_field s hl) = s
call_text (tag_label s hl) = s
call_text (tag_type s hl) = s

abbrev pub written : List Call → Bytes
written [] = []
written (c ∷ cs) = call_text c ++ written cs

-- A call by Ghidra's printer of a method that `IdaEmit` has; what it has no method for, comments and
-- spaces, the parent class writes as it is.
pub data Token : Type 0 where
  opening closing : ℕ → Token
  operator field label text typing : Bytes → Highlight → Token
  variable : Bytes → Highlight → Bool → Token
  function : Bytes → Highlight → Token

-- The methods of `IdaEmit`.
pub emit : Token → List Call
emit (Token.opening o) = emit_open_paren o
emit (Token.closing c) = emit_close_paren c
emit (Token.operator s hl) = emit_op s hl
emit (Token.field s hl) = emit_field s hl
emit (Token.label s hl) = emit_label s hl
emit (Token.text s hl) = emit_print s hl
emit (Token.typing s hl) = emit_type s hl
emit (Token.variable s hl has_op) = emit_variable s hl has_op
emit (Token.function s hl) = emit_func_name s hl

-- What a reader sees of a token.
abbrev pub shown : Token → Bytes
shown (Token.opening o) = o ∷ []
shown (Token.closing c) = c ∷ []
shown (Token.operator s hl) = s
shown (Token.field s hl) = s
shown (Token.label s hl) = s
shown (Token.text s hl) = s
shown (Token.typing s hl) = s
shown (Token.variable s hl has_op) = strip_import s
shown (Token.function s hl) = strip_import s

-- A text between two tags of a color.
abbrev pub tagged : ℕ → Bytes → Bytes
tagged color s = color_on ∷ color ∷ (s ++ color_off ∷ color ∷ [])

-- The colors that occur.
abbrev pub IsColor : ℕ → Type 0
IsColor c =
    (c ≡ color_default)
    ⊎ (c ≡ color_rptcmt)
    ⊎ (c ≡ color_dref)
    ⊎ (c ≡ color_dstr)
    ⊎ (c ≡ color_keyword)
    ⊎ (c ≡ color_impname)

-- The color of a token: that of its kind, but an import, a quoted text and a declared variable have
-- their own, in this order.
abbrev pub token_color : Token → ℕ
token_color (Token.opening o) = color_keyword
token_color (Token.closing c) = color_keyword
token_color (Token.operator s hl) = color_keyword
token_color (Token.field s hl) = color_keyword
token_color (Token.label s hl) = color_keyword
token_color (Token.text s hl) = if is_c_token (get_or s 0 0) then color_keyword else guard_color hl
token_color (Token.typing s hl) = guard_color hl
token_color (Token.variable s hl has_op) =
    if is_import_name s
    then color_impname
    else if is_string s || is_unicode_string s
    then color_dstr
    else if has_op
    then guard_color hl
    else color_keyword
token_color (Token.function s hl) = if is_import_name s then color_impname else guard_color hl

guard_color-IsColor : (hl : Highlight) → IsColor (guard_color hl)
unfolding guard_color
guard_color-IsColor Highlight.keyword_color = ground arith
guard_color-IsColor hl = ground arith

pub token_color-IsColor : (t : Token) → IsColor (token_color t)
token_color-IsColor (Token.opening o) = ground arith
token_color-IsColor (Token.closing c) = ground arith
token_color-IsColor (Token.operator s hl) = ground arith
token_color-IsColor (Token.field s hl) = ground arith
token_color-IsColor (Token.label s hl) = ground arith
token_color-IsColor (Token.text s hl) = ground (arith, guard_color-IsColor hl)
token_color-IsColor (Token.typing s hl) = guard_color-IsColor hl
token_color-IsColor (Token.variable s hl has_op) = ground (arith, guard_color-IsColor hl)
token_color-IsColor (Token.function s hl) = ground (arith, guard_color-IsColor hl)

written-guarded : (c : ℕ) (call : Call) → written (guarded c call) ≡ tagged c (call_text call)
unfolding guarded start_color_tag end_color_tag
written-guarded c call = refl

guard_color_keyword : guard_color Highlight.keyword_color ≡ color_keyword
unfolding guard_color
guard_color_keyword = refl

print-tagged :
    (s : Bytes) (hl : Highlight)
    → written (emit_print s hl) ≡ tagged (token_color (Token.text s hl)) s
unfolding emit_print guard_color
print-tagged s hl = elim (Bool-cases (is_c_token (get_or s 0 0))) [
  | inl e ↦ rw e (written-guarded _ _)
  | inr e ↦ rw e (written-guarded _ _)
]

variable-tagged :
    (s : Bytes) (hl : Highlight) (has_op : Bool)
    → written (emit_variable s hl has_op)
      ≡ tagged (token_color (Token.variable s hl has_op)) (strip_import s)
unfolding emit_variable
variable-tagged s hl has_op = elim (Bool-cases (is_import_name s)) [
  | inl e ↦ rw e (written-guarded _ _)
  | inr e ↦ rw e (elim (Bool-cases (is_string s)) [
    | inl q ↦ rw q (written-guarded _ _)
    | inr q ↦ rw q (elim (Bool-cases (is_unicode_string s)) [
      | inl u ↦ rw u (written-guarded _ _)
      | inr u ↦ rw u (plain has_op)
    ])
  ])
]
  where
    plain :
        (op : Bool)
        → written (
            guarded
              (guard_color (if op then hl else Highlight.keyword_color))
              (Call.tag_variable (strip_import s) (if op then hl else Highlight.keyword_color)))
          ≡ tagged (if op then guard_color hl else color_keyword) (strip_import s)
    plain true = written-guarded _ _
    plain false = rw guard_color_keyword (written-guarded _ _)

-- What a method writes is the text of its token, of a variable or a function without the mark of an
-- import, between a tag that opens its color and one that closes the same color.
pub emit-tagged : (t : Token) → written (emit t) ≡ tagged (token_color t) (shown t)
unfolding emit emit_func_name emit_open_paren emit_close_paren emit_op emit_field emit_label
    emit_type
emit-tagged (Token.opening o) = written-guarded _ _
emit-tagged (Token.closing c) = written-guarded _ _
emit-tagged (Token.operator s hl) = written-guarded _ _
emit-tagged (Token.field s hl) = written-guarded _ _
emit-tagged (Token.label s hl) = written-guarded _ _
emit-tagged (Token.text s hl) = print-tagged s hl
emit-tagged (Token.typing s hl) = written-guarded _ _
emit-tagged (Token.variable s hl has_op) = variable-tagged s hl has_op
emit-tagged (Token.function s hl) = grind (arith, written-guarded)
