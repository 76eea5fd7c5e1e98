-- ===== src/Examples/Configuration.antt =====
-- The configuration of the decompiler and the eBPF helpers at concrete inputs.
use yagi.Common.{ℕ, ◌≡◌, refl, true, false, [], codes, All, bytes_eq}
use yagi.Decompiler.Compiler.{Language, Endianess, Mode, Compiler, compiler}
use yagi.Decompiler.Sleigh.{compute_sleigh_id, endianess_name, mode_name, compute_default_cc}
use yagi.Decompiler.Sleigh.Injective.{compute_sleigh_id_injective}
use yagi.Decompiler.Sleigh.Parts.{part, compute_sleigh_id-parts}
use yagi.Decompiler.Detect.{Sdk, Inf, compute_compiler}
use yagi.Decompiler.Detect.Described.{Describes, compute_compiler_lem}
use yagi.Syscall.Calls.{get_type_void}
use yagi.Syscall.Register.{PrototypePieces, apply}
use yagi.Syscall.Numbers.{added_at, apply-added_at}
use yagi.Syscall.Prototypes.{Fits, apply-Fits}

abbrev x86_64 : Compiler
x86_64 = compiler Language.x86_gcc Endianess.le Mode.m64

sleigh_id_gcc : compute_sleigh_id x86_64 ≡ codes "x86:LE:64:default:gcc"
unfolding compute_sleigh_id
sleigh_id_gcc = refl

default_cc_gcc : compute_default_cc x86_64 ≡ codes "__stdcall"
unfolding compute_default_cc
default_cc_gcc = refl

compute_sleigh_id_injective_example : x86_64 ≡ x86_64
compute_sleigh_id_injective_example = compute_sleigh_id_injective x86_64 x86_64 refl

compute_sleigh_id-parts_example :
    (part 1 x86_64 ≡ codes "LE")
    × (part 2 x86_64 ≡ codes "64")
    × (bytes_eq (part 0 x86_64) [] ≡ false)
unfolding endianess_name mode_name
compute_sleigh_id-parts_example = compute_sleigh_id-parts x86_64

abbrev pub sdk : Sdk
sdk = record {
  plfm_386 = 0;
  plfm_arm = 13;
  plfm_ppc = 15;
  plfm_mips = 12;
  plfm_sparc = 23;
  plfm_avr = 20;
  plfm_6502 = 5;
  plfm_z80 = 2;
  comp_ms = 1;
  comp_gnu = 6;
}

-- A 64-bit Arm binary of little endian byte order.
abbrev pub arm_64 : Inf
arm_64 = record {
  processor_id = 13;
  compiler_id = 6;
  is_64bit = true;
  is_32bit_exactly = false;
  is_16bit = false;
  is_be = false;
}

compute_compiler_lem_example : Describes sdk arm_64 (compute_compiler sdk arm_64)
compute_compiler_lem_example = compute_compiler_lem sdk arm_64

-- A function that is added has no parameters.
abbrev fresh : ℕ → PrototypePieces
fresh n = record { innames = []; intypes = []; outtype = get_type_void; dotdotdot = false }

apply-added_at_example : added_at 44 (apply fresh) ≡ 2
apply-added_at_example = apply-added_at fresh 44

apply-Fits_example : All (Fits fresh) (apply fresh)
apply-Fits_example = apply-Fits fresh (λ n. refl)
