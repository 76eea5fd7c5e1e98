-- ===== src/Decompiler/Sleigh.antt =====
-- `compute_sleigh_id` and `compute_default_cc` of yagi/src/ghidradecompiler.cc: the names
-- under which Ghidra knows a processor and a calling convention.
pub mod Injective
pub mod Parts
use yagi.Common.{Bool, true, false, List, [], ◌∷◌, ◌++◌, Bytes, codes}
use yagi.Decompiler.Compiler.{Language, Endianess, Mode, Compiler, compiler}

-- `language` and `languageMeta` after the switch. Both start empty.
pub language_names : Language → Mode → Bytes × Bytes
language_names Language.x86 Mode.m16 = (codes "x86", codes "Real Mode")
language_names Language.x86 Mode.m24 = (codes "x86", codes "default")
language_names Language.x86 Mode.m32 = (codes "x86", codes "default")
language_names Language.x86 Mode.m64 = (codes "x86", codes "default")
language_names Language.x86_gcc mode = (codes "x86", codes "default:gcc")
language_names Language.x86_windows mode = (codes "x86", codes "default:windows")
language_names Language.ppc mode = (codes "PowerPC", codes "default")
language_names Language.mips mode = (codes "MIPS", codes "default")
language_names Language.sparc mode = (codes "sparc", codes "default")
language_names Language.p6502 mode = (codes "6502", codes "default")
language_names Language.z80 mode = (codes "z80", codes "default")
language_names Language.arm Mode.m64 = (codes "AARCH64", codes "v8A:default")
language_names Language.arm Mode.m16 = (codes "ARM", codes "v7")
language_names Language.arm Mode.m24 = (codes "ARM", codes "v7")
language_names Language.arm Mode.m32 = (codes "ARM", codes "v7")
language_names Language.atmel Mode.m32 = (codes "avr32", codes "default")
language_names Language.atmel Mode.m24 = (codes "avr8", codes "xmega")
language_names Language.atmel Mode.m16 = (codes "avr8", codes "default")
language_names Language.atmel Mode.m64 = ([], [])
language_names Language.ebpf mode = (codes "eBPF", codes "default")

unfoldable pub endianess_name : Endianess → Bytes
endianess_name Endianess.be = codes "BE"
endianess_name Endianess.le = codes "LE"

unfoldable pub mode_name : Mode → Bytes
mode_name Mode.m16 = codes "16"
mode_name Mode.m24 = codes "24"
mode_name Mode.m32 = codes "32"
mode_name Mode.m64 = codes "64"

unfoldable pub compute_sleigh_id : Compiler → Bytes
unfolding language_names endianess_name mode_name
compute_sleigh_id c =
    let (language, meta) = language_names c.language c.mode in
    language ++ b':' ∷ endianess_name c.endianess ++ b':' ∷ mode_name c.mode ++ b':' ∷ meta

-- The `throw` behind the switch is not reached.
unfoldable pub compute_default_cc : Compiler → Bytes
compute_default_cc c = elim c.language [
  | Language.x86_windows ↦ codes "__fastcall"
  | Language.arm ↦ elim c.mode [ Mode.m32 ↦ codes "__stdcall" | _ ↦ codes "__cdecl" ]
  | _ ↦ codes "__stdcall"
]
