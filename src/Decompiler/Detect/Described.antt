-- ===== src/Decompiler/Detect/Described.antt =====
-- What `compute_compiler` makes of a database, by the language.
use yagi.Common.{
  ℕ, ◌≡◌, refl, Bool, true, false, ◌&&◌, not, ◌⊎◌, inl, inr, arith, ◌==◌, ==_iff, Bool-cases,
  if◌then◌else◌,
}
use yagi.Decompiler.Compiler.{Language, Endianess, Mode, Compiler, compiler}
use yagi.Decompiler.Detect.{
  Sdk, Inf, Detected, detected, unknown_compiler, compute_mode, x86_language, with_language,
  compute_compiler,
}

-- The processor of a language.
abbrev pub processor : Sdk → Language → ℕ
processor sdk Language.x86 = sdk.plfm_386
processor sdk Language.x86_gcc = sdk.plfm_386
processor sdk Language.x86_windows = sdk.plfm_386
processor sdk Language.arm = sdk.plfm_arm
processor sdk Language.ppc = sdk.plfm_ppc
processor sdk Language.mips = sdk.plfm_mips
processor sdk Language.sparc = sdk.plfm_sparc
processor sdk Language.atmel = sdk.plfm_avr
processor sdk Language.p6502 = sdk.plfm_6502
processor sdk Language.z80 = sdk.plfm_z80
processor sdk Language.ebpf = 60287

-- The compilers of a language: those of x86 differ by it.
abbrev pub is_compiled : Sdk → ℕ → Language → Bool
is_compiled sdk c Language.x86 = not (c == sdk.comp_ms) && not (c == sdk.comp_gnu)
is_compiled sdk c Language.x86_gcc = not (c == sdk.comp_ms) && c == sdk.comp_gnu
is_compiled sdk c Language.x86_windows = c == sdk.comp_ms
is_compiled sdk c l = true

-- The mode for what the database says of 32, 16 and 64 bits.
abbrev pub mode_of : Bool → Bool → Bool → Mode
mode_of true b16 b64 = Mode.m32
mode_of false true b64 = Mode.m16
mode_of false false true = Mode.m64
mode_of false false false = Mode.m24

abbrev pub order_of : Bool → Endianess
order_of true = Endianess.be
order_of false = Endianess.le

abbrev pub configuration : Inf → Language → Compiler
configuration inf l =
    compiler l (order_of inf.is_be) (mode_of inf.is_32bit_exactly inf.is_16bit inf.is_64bit)

-- The language is that of the database's processor and compiler.
abbrev pub Speaks : Sdk → Inf → Language → Type 0
Speaks sdk inf l = (inf.processor_id ≡ processor sdk l) × (is_compiled sdk inf.compiler_id l ≡ true)

-- No language has the processor.
abbrev pub IsUnknown : Sdk → Inf → Type 0
IsUnknown sdk inf = (l : Language) → ¬ (inf.processor_id ≡ processor sdk l)

-- The configuration of a language of the database, or the exception with its processor, which no
-- language has.
abbrev pub Describes : Sdk → Inf → Detected → Type 0
Describes sdk inf d =
    ((l : Language) × Speaks sdk inf l × (d ≡ detected (configuration inf l)))
    ⊎ (IsUnknown sdk inf × (d ≡ unknown_compiler inf.processor_id))

compute_mode-mode_of :
    (inf : Inf) → compute_mode inf ≡ mode_of inf.is_32bit_exactly inf.is_16bit inf.is_64bit
unfolding compute_mode
compute_mode-mode_of inf = ground arith

with_language-configuration :
    (inf : Inf) (l : Language) → with_language inf l ≡ detected (configuration inf l)
unfolding with_language
with_language-configuration inf l = rw compute_mode-mode_of (ground arith)

-- The language that is chosen is that of the compiler.
x86_language-Speaks :
    (sdk : Sdk) (inf : Inf)
    → inf.processor_id ≡ sdk.plfm_386
    → Speaks sdk inf (x86_language sdk inf)
unfolding x86_language
x86_language-Speaks sdk inf e = ground arith

-- One test of the switch: the language is that of the processor, or the rest decides, where the
-- processor is another.
if-Describes :
    (sdk : Sdk) (inf : Inf) (l : Language) (id : ℕ) (rest : Detected)
    → (inf.processor_id ≡ id → Speaks sdk inf l)
    → (¬ (inf.processor_id ≡ id) → Describes sdk inf rest)
    → Describes sdk inf (if inf.processor_id == id then with_language inf l else rest)
if-Describes sdk inf l id rest same other = elim (Bool-cases (inf.processor_id == id)) [
  | inl e ↦
      rw e (inl (l, same ((==_iff inf.processor_id id).0 e), with_language-configuration inf l))
  | inr e ↦ rw e (other (λ is. ground arith))
]

no_processor-IsUnknown :
    (sdk : Sdk) (inf : Inf)
    → ¬ (inf.processor_id ≡ sdk.plfm_386)
    → ¬ (inf.processor_id ≡ sdk.plfm_arm)
    → ¬ (inf.processor_id ≡ sdk.plfm_ppc)
    → ¬ (inf.processor_id ≡ sdk.plfm_mips)
    → ¬ (inf.processor_id ≡ sdk.plfm_sparc)
    → ¬ (inf.processor_id ≡ sdk.plfm_avr)
    → ¬ (inf.processor_id ≡ sdk.plfm_6502)
    → ¬ (inf.processor_id ≡ sdk.plfm_z80)
    → ¬ (inf.processor_id ≡ 60287)
    → IsUnknown sdk inf
no_processor-IsUnknown sdk inf h _ _ _ _ _ _ _ _ Language.x86_windows = h
no_processor-IsUnknown sdk inf h _ _ _ _ _ _ _ _ Language.x86_gcc = h
no_processor-IsUnknown sdk inf h _ _ _ _ _ _ _ _ Language.x86 = h
no_processor-IsUnknown sdk inf _ h _ _ _ _ _ _ _ Language.arm = h
no_processor-IsUnknown sdk inf _ _ h _ _ _ _ _ _ Language.ppc = h
no_processor-IsUnknown sdk inf _ _ _ h _ _ _ _ _ Language.mips = h
no_processor-IsUnknown sdk inf _ _ _ _ h _ _ _ _ Language.sparc = h
no_processor-IsUnknown sdk inf _ _ _ _ _ h _ _ _ Language.atmel = h
no_processor-IsUnknown sdk inf _ _ _ _ _ _ h _ _ Language.p6502 = h
no_processor-IsUnknown sdk inf _ _ _ _ _ _ _ h _ Language.z80 = h
no_processor-IsUnknown sdk inf _ _ _ _ _ _ _ _ h Language.ebpf = h

-- For any database, either a configuration is detected for a language whose processor and
-- compiler are those of the database, with the database's byte order, and with the mode of 32
-- bits if it says 32, else of 16 bits if it says 16, else of 64 if it says 64, and else of 24; or
-- no language has the processor, and the exception names it.
pub compute_compiler_lem : (sdk : Sdk) (inf : Inf) → Describes sdk inf (compute_compiler sdk inf)
unfolding compute_compiler
compute_compiler_lem sdk inf =
    if-Describes sdk inf (x86_language sdk inf) sdk.plfm_386 _ (x86_language-Speaks sdk inf) λ n₁.
      if-Describes sdk inf Language.arm sdk.plfm_arm _ (λ e. (e, refl))
        λ n₂.
          if-Describes sdk inf Language.ppc sdk.plfm_ppc _ (λ e. (e, refl))
            λ n₃.
              if-Describes sdk inf Language.mips sdk.plfm_mips _ (λ e. (e, refl))
                λ n₄.
                  if-Describes sdk inf Language.sparc sdk.plfm_sparc _ (λ e. (e, refl))
                    λ n₅.
                      if-Describes sdk inf Language.atmel sdk.plfm_avr _ (λ e. (e, refl))
                        λ n₆.
                          if-Describes sdk inf Language.p6502 sdk.plfm_6502 _ (λ e. (e, refl))
                            λ n₇.
                              if-Describes sdk inf Language.z80 sdk.plfm_z80 _ (λ e. (e, refl))
                                λ n₈.
                                  if-Describes sdk inf Language.ebpf 60287 _ (λ e. (e, refl))
                                    λ n₉. inr (
                                      no_processor-IsUnknown sdk inf n₁ n₂ n₃ n₄ n₅ n₆ n₇ n₈ n₉,
                                      refl,
                                    )
