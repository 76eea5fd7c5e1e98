-- ===== src/Decompiler/Compiler.antt =====
-- `Compiler` of yagi/include/decompiler.hh.
pub mod Cases

pub data Language : Type 0 where
  x86_windows : Language
  x86_gcc : Language
  x86 : Language
  arm : Language
  ppc : Language
  mips : Language
  sparc : Language
  atmel : Language
  p6502 : Language
  z80 : Language
  ebpf : Language

pub data Endianess : Type 0 where
  be : Endianess
  le : Endianess

pub data Mode : Type 0 where
  m16 : Mode
  m24 : Mode
  m32 : Mode
  m64 : Mode

pub record Compiler : Type 0 where
  pub language : Language
  pub endianess : Endianess
  pub mode : Mode

-- The constructor.
abbrev pub compiler : Language → Endianess → Mode → Compiler
compiler l e m = record { language = l; endianess = e; mode = m }
