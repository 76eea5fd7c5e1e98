-- ===== src/Logger/Lines.antt =====
-- What the user reads of a message.
use yagi.Common.{
  ◌≡◌, refl, ap, ◌∙◌, List, [], ◌∷◌, ◌++◌, All, arith, Bytes, codes, Lacks, Lacks-append,
  append-nil,
}
use yagi.Plugin.View.{c_str}
use yagi.Logger.{values, format, print, error, info}

-- Texts that no conversion of `msg` stands in, and no byte that ends a C string.
abbrev pub Printable : Bytes → Type 0
Printable s = Lacks b'%' s × Lacks 0 s

Printable-append : (s t : Bytes) → Printable s → Printable t → Printable (s ++ t)
Printable-append s t (p, z) (p', z') = (Lacks-append b'%' s t p p', Lacks-append 0 s t z z')

Printable-values : (vals : List Bytes) → All Printable vals → Printable (values vals)
unfolding values
Printable-values [] h = (tt, tt)
Printable-values (val ∷ vals) (h, rest) =
    Printable-append (codes " ") _ (ground arith)
      (Printable-append val (values vals) h (Printable-values vals rest))

Printable-format :
    (level message : Bytes) (parameters : List Bytes)
    → Printable level
    → All Printable (message ∷ parameters)
    → Printable (format level message parameters)
unfolding format
Printable-format level message parameters l h =
    let marked : Bytes = codes "[Yagi] " ++ level in
    let begun : Bytes = marked ++ codes " : " in
    let vals : Bytes = values (message ∷ parameters) in
    Printable-append (begun ++ vals) (10 ∷ [])
      (Printable-append begun vals
        (Printable-append marked (codes " : ")
          (Printable-append (codes "[Yagi] ") level (ground arith) l) (ground arith))
        (Printable-values (message ∷ parameters) h))
      (ground arith)

c_str_whole : (s : Bytes) → Lacks 0 s → c_str s ≡ s
unfolding c_str
c_str_whole [] h = refl
c_str_whole (c ∷ s) (h, rest) = ground (arith, c_str_whole s rest)

-- The texts with a blank between each and the next.
abbrev pub joined : Bytes → List Bytes → Bytes
joined message [] = message
joined message (parameter ∷ parameters) = message ++ 32 ∷ joined parameter parameters

values-joined :
    (message : Bytes) (parameters : List Bytes)
    → values (message ∷ parameters) ≡ 32 ∷ joined message parameters
unfolding values
values-joined message [] = ap (λ s. 32 ∷ s) (append-nil message)
values-joined message (parameter ∷ parameters) =
    ap (λ s. 32 ∷ (message ++ s)) (values-joined parameter parameters)

abbrev pub log_line : Bytes → Bytes → List Bytes → Bytes
log_line level message parameters =
    codes "[Yagi] " ++ level ++ codes " : " ++ (32 ∷ joined message parameters) ++ codes "\n"

format-log_line :
    (level message : Bytes) (parameters : List Bytes)
    → format level message parameters ≡ log_line level message parameters
unfolding format
format-log_line level message parameters =
    ap (λ vals. codes "[Yagi] " ++ level ++ codes " : " ++ vals ++ codes "\n")
      (values-joined message parameters)

module _ (msg : Bytes → Bytes) (as_is : (s : Bytes) → Lacks b'%' s → msg s ≡ s) where
  print-appends :
      (message window : Bytes) → Printable message → print msg message window ≡ window ++ message
  unfolding print
  print-appends message window (p, z) = rw (c_str_whole message z, as_is message p) refl

  -- Where IDA's `msg` prints a text without a percent sign as it is, an information or an error
  -- whose message and parameters have no percent sign and no NUL is printed behind what the
  -- window holds as one line: the mark of the plugin, the level, and the texts with a blank
  -- between each and the next.
  pub info-prints :
      (message window : Bytes) (parameters : List Bytes)
      → All Printable (message ∷ parameters)
      → (info msg message parameters window ≡ window ++ log_line (codes "INFO") message parameters)
        × (error msg message parameters window
            ≡ window ++ log_line (codes "ERROR") message parameters)
  unfolding info error
  info-prints message window parameters h = (
    print-appends _ window (Printable-format (codes "INFO") message parameters (ground arith) h)
        ∙ ap (λ s. window ++ s) (format-log_line (codes "INFO") message parameters),
    print-appends _ window (Printable-format (codes "ERROR") message parameters (ground arith) h)
        ∙ ap (λ s. window ++ s) (format-log_line (codes "ERROR") message parameters),
  )
