-- ===== src/Decompiler/Detect.antt =====
-- `compute_compiler` of yagi/src/yagi.cc. The numbers of the processors and compilers are those
-- of the IDA SDK; the number of an eBPF processor stands in the source.
pub mod Described
use yagi.Common.{ℕ, ◌≡◌, refl, Bool, true, false, ◌||◌, arith, ◌==◌, if◌then◌else◌}
use yagi.Decompiler.Compiler.{Language, Endianess, Mode, Compiler, compiler}

pub record Sdk : Type 0 where
  pub plfm_386 : ℕ
  pub plfm_arm : ℕ
  pub plfm_ppc : ℕ
  pub plfm_mips : ℕ
  pub plfm_sparc : ℕ
  pub plfm_avr : ℕ
  pub plfm_6502 : ℕ
  pub plfm_z80 : ℕ
  pub comp_ms : ℕ
  pub comp_gnu : ℕ

-- What IDA says of the open database.
pub record Inf : Type 0 where
  pub processor_id : ℕ
  pub compiler_id : ℕ
  pub is_64bit : Bool
  pub is_32bit_exactly : Bool
  pub is_16bit : Bool
  pub is_be : Bool

-- A compiler, or the exception `UnknownCompiler` with the number of the processor.
pub data Detected : Type 0 where
  detected : Compiler → Detected
  unknown_compiler : ℕ → Detected

pub compute_mode : Inf → Mode
compute_mode inf =
    if inf.is_32bit_exactly
    then Mode.m32
    else if inf.is_16bit
    then Mode.m16
    else if inf.is_64bit
    then Mode.m64
    else Mode.m24

pub x86_language : Sdk → Inf → Language
x86_language sdk inf =
    if inf.compiler_id == sdk.comp_ms
    then Language.x86_windows
    else if inf.compiler_id == sdk.comp_gnu
    then Language.x86_gcc
    else Language.x86

pub with_language : Inf → Language → Detected
with_language inf language =
    detected
      (compiler language (if inf.is_be then Endianess.be else Endianess.le) (compute_mode inf))

pub compute_compiler : Sdk → Inf → Detected
unfolding with_language x86_language
compute_compiler sdk inf =
    let id = inf.processor_id in
    if id == sdk.plfm_386
    then with_language inf (x86_language sdk inf)
    else if id == sdk.plfm_arm
    then with_language inf Language.arm
    else if id == sdk.plfm_ppc
    then with_language inf Language.ppc
    else if id == sdk.plfm_mips
    then with_language inf Language.mips
    else if id == sdk.plfm_sparc
    then with_language inf Language.sparc
    else if id == sdk.plfm_avr
    then with_language inf Language.atmel
    else if id == sdk.plfm_6502
    then with_language inf Language.p6502
    else if id == sdk.plfm_z80
    then with_language inf Language.z80
    else if id == 60287
    then with_language inf Language.ebpf
    else unknown_compiler id
