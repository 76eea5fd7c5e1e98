-- ===== src/Plugin/DeclType.antt =====
-- `_PrintDeclType` of yagi/src/plugin.cc: the declaration that the user is asked to edit.
use yagi.Common.{
  ℕ, ◌-◌, ◌≡◌, refl, sym, ap, ◌∙◌, Bool, true, false, List, [], ◌∷◌, ◌++◌, Option, none, some,
  arith, Bytes, codes, ◌==◌, if◌then◌else◌, append_assoc, append-nil, take, length, take-append_eq,
  length-append,
}
use yagi.Symbol.FunctionName.{get_last?, get_last?-append}

-- `FuncInfo`: the names of the types of the result and of the parameters; `none` for the calling
-- convention is the exception `UnknownCallingConvention`.
pub record FuncInfo : Type 0 where
  pub prototype : List Bytes
  pub calling_conv : Option Bytes
  pub dot_dot_dot : Bool

pub record TypeInfo : Type 0 where
  pub name : Bytes
  pub func : Option FuncInfo

-- The loop appends the name of each type and a comma.
pub parameters_loop : List Bytes → Bytes → Bytes
parameters_loop [] decl = decl
parameters_loop (p ∷ ps) decl = parameters_loop ps (decl ++ (p ++ b',' ∷ []))

-- `back() == ','`, and the text without its last byte.
pub ends_with_comma : Bytes → Bool
ends_with_comma s = elim (get_last? s) [ none ↦ false | some c ↦ c == b',' ]

pub drop_comma : Bytes → Bytes
drop_comma s = if ends_with_comma s then take (length s - 1) s else s

pub parameters_decl : Bool → List Bytes → Bytes
unfolding parameters_loop drop_comma
parameters_decl dot_dot_dot ps =
    let decl = parameters_loop ps [] in
    drop_comma (if dot_dot_dot then decl ++ codes "..." else decl)

abbrev or_empty : Option Bytes → Bytes
or_empty none = []
or_empty (some s) = s

print_func : Bytes → TypeInfo → FuncInfo → List Bytes → Bytes
unfolding parameters_decl
print_func name type f [] = type.name ++ codes ";"
print_func name type f (result ∷ params) =
    result
    ++ (codes " "
        ++ (or_empty f.calling_conv
            ++ (codes " "
                ++ (name ++ (codes "(" ++ (parameters_decl f.dot_dot_dot params ++ codes ");"))))))

pub print_decl_type : Bytes → TypeInfo → Bytes
unfolding print_func
print_decl_type name type = elim type.func [
  | none ↦ type.name ++ codes ";"
  | some f ↦ print_func name type f f.prototype
]

-- Texts with a comma between each two.
abbrev pub comma_separated : List Bytes → Bytes
comma_separated [] = []
comma_separated (p ∷ []) = p
comma_separated (p ∷ q ∷ ps) = p ++ b',' ∷ comma_separated (q ∷ ps)

-- Texts with a comma behind each.
abbrev comma_terminated : List Bytes → Bytes
comma_terminated [] = []
comma_terminated (p ∷ ps) = p ++ b',' ∷ comma_terminated ps

parameters_loop-terminated :
    (ps : List Bytes) (decl : Bytes) → parameters_loop ps decl ≡ decl ++ comma_terminated ps
unfolding parameters_loop
parameters_loop-terminated [] decl = sym (append-nil decl)
parameters_loop-terminated (p ∷ ps) decl = simp (parameters_loop-terminated ps, append_assoc)

ends_with_comma-append : (s : Bytes) (c : ℕ) → ends_with_comma (s ++ c ∷ []) ≡ (c == b',')
unfolding ends_with_comma
ends_with_comma-append s c = rw (get_last?-append, ends_with_comma)

drop_comma-append : (s : Bytes) → drop_comma (s ++ b',' ∷ []) ≡ s
unfolding drop_comma
drop_comma-append s =
    rw (ends_with_comma-append s b',', drop_comma)
      (take-append_eq s (b',' ∷ []) _ (omega (arith, length-append {0} s (b',' ∷ []))))

drop_comma-dots : (s : Bytes) → drop_comma (s ++ codes "...") ≡ s ++ codes "..."
unfolding drop_comma
drop_comma-dots s =
    let apart : s ++ codes "..." ≡ (s ++ codes "..") ++ codes "." =
      sym (append_assoc s (codes "..") (codes ".")) in
    rw (apart, ends_with_comma-append (s ++ codes "..") b'.', drop_comma)

comma_terminated-separated :
    (p : Bytes) (ps : List Bytes)
    → comma_terminated (p ∷ ps) ≡ comma_separated (p ∷ ps) ++ b',' ∷ []
comma_terminated-separated p [] = refl
comma_terminated-separated p (q ∷ ps) =
    ap (λ s. p ++ b',' ∷ s) (comma_terminated-separated q ps)
    ∙ sym (append_assoc p (b',' ∷ comma_separated (q ∷ ps)) (b',' ∷ []))

separated_dots :
    (ps : List Bytes)
    → comma_terminated ps ++ codes "..." ≡ comma_separated (ps ++ codes "..." ∷ [])
separated_dots [] = refl
separated_dots (p ∷ []) = append_assoc p (b',' ∷ []) (codes "...")
separated_dots (p ∷ q ∷ ps) =
    append_assoc p (b',' ∷ comma_terminated (q ∷ ps)) (codes "...")
    ∙ ap (λ s. p ++ b',' ∷ s) (separated_dots (q ∷ ps))

-- The parameters of a declaration are written with a comma between each two, and `...` last for a
-- function of variable arguments.
pub parameters_decl-separated :
    (dot_dot_dot : Bool) (ps : List Bytes)
    → parameters_decl dot_dot_dot ps
      ≡ comma_separated (if dot_dot_dot then ps ++ codes "..." ∷ [] else ps)
unfolding parameters_decl
parameters_decl-separated true ps =
    rw parameters_loop-terminated (drop_comma-dots (comma_terminated ps) ∙ separated_dots ps)
parameters_decl-separated false [] = unfold ends_with_comma in refl
parameters_decl-separated false (p ∷ ps) =
    rw parameters_loop-terminated
      (ap drop_comma (comma_terminated-separated p ps) ∙ drop_comma-append _)
