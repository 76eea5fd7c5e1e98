-- ===== src/Architecture/Perform/Order.antt =====
-- The actions that a function goes through, for each language.
use yagi.Common.{
  ◌≡◌, refl, Bool, true, false, List, [], ◌∷◌, ◌++◌, Bytes, codes, if◌then◌else◌, Bool-cases, inl,
  inr, map,
}
use yagi.Common.Integers.{ℤ, is_negative}
use yagi.Decompiler.Compiler.{Compiler, Language}
use yagi.Decompiler.Sleigh.{compute_sleigh_id, compute_default_cc}
use yagi.Architecture.{
  Architecture, architecture, YagiAction, add_ebpf_syscall, mips_t9_optimization, sync_stack_var,
  rename_var, load_local_scope, Init, initialised, lowlevel_error, build_with, decompiler, build,
  build_action, for_language,
}
use yagi.Architecture.Perform.{
  ActionGroup, current, arch_specific, rename_action, retype_action, init_action, Call, reset,
  perform, break_start, clear_break_points, first_calls, perform_actions,
}

pub members : Architecture → ActionGroup → List YagiAction
members arch current = []
members arch arch_specific = arch.arch_specific
members arch rename_action = arch.rename_action
members arch retype_action = arch.retype_action
members arch init_action = arch.init_action

-- The actions that the calls perform, in their order.
pub performed : Architecture → List Call → List YagiAction
performed arch [] = []
performed arch (reset g ∷ calls) = performed arch calls
performed arch (perform g ∷ calls) = members arch g ++ performed arch calls
performed arch (break_start name ∷ calls) = performed arch calls
performed arch (clear_break_points ∷ calls) = performed arch calls

-- The action that only functions of one language go through.
abbrev pub language_actions : Language → List YagiAction
language_actions Language.ebpf = add_ebpf_syscall ∷ []
language_actions Language.mips = mips_t9_optimization ∷ []
language_actions l = []

abbrev pub spaces : List Bytes
spaces = codes "register" ∷ codes "stack" ∷ codes "unique" ∷ codes "const" ∷ []

abbrev pub typing : List YagiAction
typing = map load_local_scope spaces

abbrev pub naming : List YagiAction
naming = sync_stack_var ∷ map rename_var spaces

-- The calls, where the current group was left early or not.
abbrev calls_made : Bool → List Call
calls_made true = first_calls
calls_made false = first_calls ++ perform rename_action ∷ []

perform_actions-calls_made :
    (answer : List Call → ℤ)
    → (perform_actions answer).1 ≡ calls_made (is_negative (answer first_calls))
unfolding perform_actions
perform_actions-calls_made answer = elim (Bool-cases (is_negative (answer first_calls))) [
  | inl e ↦ rw e refl
  | inr e ↦ rw e refl
]

abbrev Performs : Language → Architecture → Bool → Type 0
Performs l arch left =
    performed arch (calls_made left) ≡ language_actions l ++ typing ++ (if left then [] else naming)

performed-for_language :
    (l : Language) (id cc_name : Bytes)
    → Performs l (build_action (for_language l (architecture id cc_name))) true
      × Performs l (build_action (for_language l (architecture id cc_name))) false
unfolding performed members for_language build_action architecture
performed-for_language Language.x86_windows id cc_name = (refl, refl)
performed-for_language Language.x86_gcc id cc_name = (refl, refl)
performed-for_language Language.x86 id cc_name = (refl, refl)
performed-for_language Language.arm id cc_name = (refl, refl)
performed-for_language Language.ppc id cc_name = (refl, refl)
performed-for_language Language.mips id cc_name = (refl, refl)
performed-for_language Language.sparc id cc_name = (refl, refl)
performed-for_language Language.atmel id cc_name = (refl, refl)
performed-for_language Language.p6502 id cc_name = (refl, refl)
performed-for_language Language.z80 id cc_name = (refl, refl)
performed-for_language Language.ebpf id cc_name = (refl, refl)

performed-calls_made :
    (l : Language) (id cc_name : Bytes) (left : Bool)
    → Performs l (build_action (for_language l (architecture id cc_name))) left
performed-calls_made l id cc_name true = (performed-for_language l id cc_name).0
performed-calls_made l id cc_name false = (performed-for_language l id cc_name).1

build_with-decompiler :
    (o : Init) (a arch : Architecture) → build_with o a ≡ decompiler arch → arch ≡ build_action a
unfolding build_with
build_with-decompiler initialised a arch e = cc
build_with-decompiler (lowlevel_error explain) a arch e = cc

pub build-decompiler :
    (init : Architecture → Init) (c : Compiler) (arch : Architecture)
    → build init c ≡ decompiler arch
    → arch
      ≡ build_action
          (for_language c.language (architecture (compute_sleigh_id c) (compute_default_cc c)))
unfolding build
build-decompiler init c arch e = build_with-decompiler _ _ arch e

-- For each configuration a decompiler is built for, and whatever Ghidra's groups return, a
-- function goes through the action of its language, if there is one, then those that bring the
-- saved types of the four spaces in, and then, unless Ghidra's own group was left early, the
-- names of the frame before the saved names of the four spaces.
pub perform_actions-build :
    (init : Architecture → Init) (c : Compiler) (arch : Architecture) (answer : List Call → ℤ)
    → build init c ≡ decompiler arch
    → performed arch (perform_actions answer).1
      ≡ language_actions c.language
        ++ typing
        ++ (if is_negative (answer first_calls) then [] else naming)
perform_actions-build init c arch answer e =
    rw (build-decompiler init c arch e, perform_actions-calls_made answer)
      (performed-calls_made c.language (compute_sleigh_id c) (compute_default_cc c)
        (is_negative (answer first_calls)))
