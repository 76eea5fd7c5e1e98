-- ===== src/Decompiler/Compiler/Cases.antt =====
-- Tests of every configuration, of which there are eighty-eight.
use yagi.Common.{
  ℕ, ◌≡◌, refl, ap, sym, ◌∙◌, ==_iff, arith, Bool, true, ◌&&◌, [], ◌∷◌, ◌==◌, both, get_or,
}
use yagi.Decompiler.Compiler.{Language, Endianess, Mode, Compiler, compiler}

-- Tests of every language, byte order and mode.
abbrev all_languages : (Language → Bool) → Bool
all_languages t =
    t Language.x86_windows
    && (t Language.x86_gcc
        && (t Language.x86
            && (t Language.arm
                && (t Language.ppc
                    && (t Language.mips
                        && (t Language.sparc
                            && (t Language.atmel
                                && (t Language.p6502 && (t Language.z80 && t Language.ebpf)))))))))

all_languages-at : (t : Language → Bool) → all_languages t ≡ true → (l : Language) → t l ≡ true
all_languages-at t h Language.x86_windows = ground (arith)
all_languages-at t h Language.x86_gcc = ground (arith)
all_languages-at t h Language.x86 = ground (arith)
all_languages-at t h Language.arm = ground (arith)
all_languages-at t h Language.ppc = ground (arith)
all_languages-at t h Language.mips = ground (arith)
all_languages-at t h Language.sparc = ground (arith)
all_languages-at t h Language.atmel = ground (arith)
all_languages-at t h Language.p6502 = ground (arith)
all_languages-at t h Language.z80 = ground (arith)
all_languages-at t h Language.ebpf = ground (arith)

abbrev all_modes : (Compiler → Bool) → Language → Bool
all_modes t l =
    t (compiler l Endianess.be Mode.m16)
    && (t (compiler l Endianess.be Mode.m24)
        && (t (compiler l Endianess.be Mode.m32)
            && (t (compiler l Endianess.be Mode.m64)
                && (t (compiler l Endianess.le Mode.m16)
                    && (t (compiler l Endianess.le Mode.m24)
                        && (t (compiler l Endianess.le Mode.m32)
                            && t (compiler l Endianess.le Mode.m64)))))))

all_modes-at :
    (t : Compiler → Bool) (l : Language) (e : Endianess)
    → all_modes t l ≡ true
    → (m : Mode) → t (compiler l e m) ≡ true
all_modes-at t l Endianess.be h Mode.m16 = ground (arith)
all_modes-at t l Endianess.be h Mode.m24 = ground (arith)
all_modes-at t l Endianess.be h Mode.m32 = ground (arith)
all_modes-at t l Endianess.be h Mode.m64 = ground (arith)
all_modes-at t l Endianess.le h Mode.m16 = ground (arith)
all_modes-at t l Endianess.le h Mode.m24 = ground (arith)
all_modes-at t l Endianess.le h Mode.m32 = ground (arith)
all_modes-at t l Endianess.le h Mode.m64 = ground (arith)

abbrev pub all_compilers : (Compiler → Bool) → Bool
all_compilers t = all_languages (all_modes t)

pub all_compilers-at : (t : Compiler → Bool) → all_compilers t ≡ true → (c : Compiler) → t c ≡ true
all_compilers-at t h c =
    all_modes-at t c.language c.endianess (all_languages-at (all_modes t) h c.language) c.mode

-- Each value of an enumeration by its number.
abbrev pub language_number : Language → ℕ
language_number Language.x86_windows = 0
language_number Language.x86_gcc = 1
language_number Language.x86 = 2
language_number Language.arm = 3
language_number Language.ppc = 4
language_number Language.mips = 5
language_number Language.sparc = 6
language_number Language.atmel = 7
language_number Language.p6502 = 8
language_number Language.z80 = 9
language_number Language.ebpf = 10

abbrev language_at : ℕ → Language
language_at n =
    get_or
      (Language.x86_windows ∷ Language.x86_gcc ∷ Language.x86 ∷ Language.arm ∷ Language.ppc
        ∷ Language.mips ∷ Language.sparc ∷ Language.atmel ∷ Language.p6502 ∷ Language.z80
        ∷ Language.ebpf ∷ [])
      n Language.x86_windows

language_at-number : (x : Language) → language_at (language_number x) ≡ x
language_at-number Language.x86_windows = refl
language_at-number Language.x86_gcc = refl
language_at-number Language.x86 = refl
language_at-number Language.arm = refl
language_at-number Language.ppc = refl
language_at-number Language.mips = refl
language_at-number Language.sparc = refl
language_at-number Language.atmel = refl
language_at-number Language.p6502 = refl
language_at-number Language.z80 = refl
language_at-number Language.ebpf = refl

language_number-injective :
    (x y : Language) → (language_number x == language_number y) ≡ true → x ≡ y
language_number-injective x y h =
    sym (language_at-number x) ∙ ap language_at ((==_iff _ _).0 h) ∙ language_at-number y

abbrev endianess_number : Endianess → ℕ
endianess_number Endianess.be = 0
endianess_number Endianess.le = 1

abbrev endianess_at : ℕ → Endianess
endianess_at n = get_or (Endianess.be ∷ Endianess.le ∷ []) n Endianess.be

endianess_at-number : (x : Endianess) → endianess_at (endianess_number x) ≡ x
endianess_at-number Endianess.be = refl
endianess_at-number Endianess.le = refl

endianess_number-injective :
    (x y : Endianess) → (endianess_number x == endianess_number y) ≡ true → x ≡ y
endianess_number-injective x y h =
    sym (endianess_at-number x) ∙ ap endianess_at ((==_iff _ _).0 h) ∙ endianess_at-number y

abbrev pub mode_number : Mode → ℕ
mode_number Mode.m16 = 0
mode_number Mode.m24 = 1
mode_number Mode.m32 = 2
mode_number Mode.m64 = 3

abbrev mode_at : ℕ → Mode
mode_at n = get_or (Mode.m16 ∷ Mode.m24 ∷ Mode.m32 ∷ Mode.m64 ∷ []) n Mode.m16

mode_at-number : (x : Mode) → mode_at (mode_number x) ≡ x
mode_at-number Mode.m16 = refl
mode_at-number Mode.m24 = refl
mode_at-number Mode.m32 = refl
mode_at-number Mode.m64 = refl

mode_number-injective : (x y : Mode) → (mode_number x == mode_number y) ≡ true → x ≡ y
mode_number-injective x y h =
    sym (mode_at-number x) ∙ ap mode_at ((==_iff _ _).0 h) ∙ mode_at-number y

abbrev pub same : Compiler → Compiler → Bool
same c d =
    language_number c.language == language_number d.language
    && (endianess_number c.endianess == endianess_number d.endianess
        && (mode_number c.mode == mode_number d.mode))

pub same→≡ : (c d : Compiler) → same c d ≡ true → c ≡ d
same→≡ c d h =
    let (l, rest) =
      both (language_number c.language == language_number d.language)
        (endianess_number c.endianess == endianess_number d.endianess
          && (mode_number c.mode == mode_number d.mode))
        h in
    let (e, m) =
      both (endianess_number c.endianess == endianess_number d.endianess)
        (mode_number c.mode == mode_number d.mode) rest in
    ap (λ x. compiler x c.endianess c.mode) (language_number-injective c.language d.language l)
    ∙ (ap (λ x. compiler d.language x c.mode) (endianess_number-injective c.endianess d.endianess e)
        ∙ ap (compiler d.language d.endianess) (mode_number-injective c.mode d.mode m))
