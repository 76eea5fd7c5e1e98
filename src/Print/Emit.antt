-- ===== src/Print/Emit.antt =====
-- `IdaEmit` and `EmitColorGuard`. Each method makes calls of the parent class `EmitPrettyPrint`,
-- which is Ghidra's: a method is the list of these calls.
use yagi.Common.{
  ℕ, Bool, ◌&&◌, ◌||◌, not, List, [], ◌∷◌, Bytes, codes, bytes_eq, ◌==◌, get_or, if◌then◌else◌,
  take, drop,
}

-- Ghidra's `syntax_highlight`: the values that the code names, and any other.
pub data Highlight : Type 0 where
  keyword_color comment_color type_color funcname_color var_color const_color : Highlight
  param_color global_color no_color other_color : Highlight

abbrev pub color_on : ℕ
color_on = 1

abbrev pub color_off : ℕ
color_off = 2

-- The colors of IDA that the emitter uses.
abbrev pub color_default : ℕ
color_default = 0x01

abbrev pub color_rptcmt : ℕ
color_rptcmt = 0x03

abbrev pub color_dref : ℕ
color_dref = 0x0F

abbrev pub color_dstr : ℕ
color_dstr = 0x1D

abbrev pub color_keyword : ℕ
color_keyword = 0x20

abbrev pub color_impname : ℕ
color_impname = 0x22

-- The switch of the second constructor of `EmitColorGuard`.
unfoldable pub guard_color : Highlight → ℕ
guard_color Highlight.keyword_color = color_keyword
guard_color Highlight.comment_color = color_rptcmt
guard_color Highlight.type_color = color_rptcmt
guard_color Highlight.funcname_color = color_default
guard_color Highlight.var_color = color_dref
guard_color Highlight.const_color = color_keyword
guard_color Highlight.param_color = color_default
guard_color Highlight.global_color = color_default
guard_color Highlight.no_color = color_default
guard_color Highlight.other_color = color_default

-- A call of a method of the parent class, with the text that it is given.
pub data Call : Type 0 where
  print_text : Bytes → Call
  print_hl : Bytes → Highlight → Call
  open_paren : ℕ → Call
  close_paren : ℕ → Call
  tag_op : Bytes → Highlight → Call
  tag_variable : Bytes → Highlight → Call
  tag_func_name : Bytes → Highlight → Call
  tag_field : Bytes → Highlight → Call
  tag_label : Bytes → Highlight → Call
  tag_type : Bytes → Highlight → Call

unfoldable pub start_color_tag : ℕ → Call
start_color_tag c = print_text (color_on ∷ c ∷ [])

unfoldable pub end_color_tag : ℕ → Call
end_color_tag c = print_text (color_off ∷ c ∷ [])

-- A guard lives for the rest of its block: its constructor starts the tag, its destructor ends it.
unfoldable pub guarded : ℕ → Call → List Call
unfolding start_color_tag end_color_tag
guarded color call = start_color_tag color ∷ call ∷ end_color_tag color ∷ []

abbrev pub import_prefix : Bytes
import_prefix = codes "__imp_"

unfoldable pub is_import_name : Bytes → Bool
is_import_name name = bytes_eq (take 6 name) import_prefix

-- Without the mark of an import.
unfoldable pub strip_import : Bytes → Bytes
strip_import name = if is_import_name name then drop 6 name else name

abbrev is_quote : ℕ → Bool
is_quote c = c == b'"' || c == b'\''

-- `*ptr` and `ptr[1]`; a C string ends with a zero byte.
pub is_string : Bytes → Bool
is_string ptr = is_quote (get_or ptr 0 0)

pub is_unicode_string : Bytes → Bool
is_unicode_string ptr =
    get_or ptr 0 0 == b'L' && (not (get_or ptr 1 0 == 0) && is_quote (get_or ptr 1 0))

-- `has_op` is `op != nullptr`: a declaration is printed with no operation.
unfoldable pub emit_variable : Bytes → Highlight → Bool → List Call
emit_variable ptr hl has_op =
    let name = strip_import ptr in
    let hl' = if has_op then hl else Highlight.keyword_color in
    if is_import_name ptr
    then guarded color_impname (Call.tag_variable name hl')
    else if is_string ptr
    then guarded color_dstr (Call.tag_variable name hl')
    else if is_unicode_string ptr
    then guarded color_dstr (Call.tag_variable name hl')
    else guarded (guard_color hl') (Call.tag_variable name hl')

unfoldable pub emit_func_name : Bytes → Highlight → List Call
emit_func_name ptr hl =
    let name = strip_import ptr in
    if is_import_name ptr
    then guarded color_impname (Call.tag_func_name name hl)
    else guarded (guard_color hl) (Call.tag_func_name name hl)

abbrev pub is_c_token : ℕ → Bool
is_c_token c = c == b'{' || (c == b'}' || (c == b';' || c == b','))

unfoldable pub emit_print : Bytes → Highlight → List Call
emit_print str hl =
    let hl' = if is_c_token (get_or str 0 0) then Highlight.keyword_color else hl in
    guarded (guard_color hl') (Call.print_hl str hl')

unfoldable pub emit_open_paren : ℕ → List Call
emit_open_paren o = guarded color_keyword (Call.open_paren o)

unfoldable pub emit_close_paren : ℕ → List Call
emit_close_paren c = guarded color_keyword (Call.close_paren c)

unfoldable pub emit_op : Bytes → Highlight → List Call
emit_op ptr hl = guarded color_keyword (Call.tag_op ptr hl)

unfoldable pub emit_field : Bytes → Highlight → List Call
emit_field ptr hl = guarded color_keyword (Call.tag_field ptr hl)

unfoldable pub emit_label : Bytes → Highlight → List Call
emit_label ptr hl = guarded color_keyword (Call.tag_label ptr hl)

unfoldable pub emit_type : Bytes → Highlight → List Call
emit_type ptr hl = guarded (guard_color hl) (Call.tag_type ptr hl)
