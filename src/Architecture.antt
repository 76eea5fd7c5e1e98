-- ===== src/Architecture.antt =====
-- `YagiArchitecture` of yagi/src/yagiarchitecture.cc and `GhidraDecompiler::build` of
-- yagi/src/ghidradecompiler.cc: what an architecture holds, and how it is set up for a language.
pub mod Perform
pub mod CoreTypes
pub mod Configured
pub mod Guard
use yagi.Common.{List, [], ◌∷◌, ◌++◌, Option, none, some, Bytes, codes}
use yagi.Common.Maps.{lookup, emplace}
use yagi.Decompiler.Compiler.{Compiler, Language}
use yagi.Decompiler.Sleigh.{compute_sleigh_id, compute_default_cc}

-- The actions, with the space they work on.
pub data YagiAction : Type 0 where
  add_ebpf_syscall mips_t9_optimization sync_stack_var : YagiAction
  rename_var load_local_scope : Bytes → YagiAction

-- A rule: the name of the function that wraps an indirect call.
pub data YagiRule : Type 0 where
  windows_control_flow_guard : Bytes → YagiRule

pub record Architecture : Type 0 where
  pub sleigh_id : Bytes
  pub default_cc : Bytes
  pub injection_map : List (Bytes × Bytes)
  pub extra_pool_rules : List YagiRule
  pub rename_action : List YagiAction
  pub retype_action : List YagiAction
  pub arch_specific : List YagiAction
  pub init_action : List YagiAction

-- The constructor.
pub architecture : Bytes → Bytes → Architecture
architecture sleigh_id default_cc = record {
  sleigh_id = sleigh_id;
  default_cc = default_cc;
  injection_map = [];
  extra_pool_rules = [];
  rename_action = [];
  retype_action = [];
  arch_specific = [];
  init_action = [];
}

pub add_injection : Bytes → Bytes → Architecture → Architecture
add_injection function_name injection arch = record arch {
  injection_map = emplace function_name injection arch.injection_map;
}

pub find_injection : Architecture → Bytes → Option Bytes
find_injection arch function_name = lookup function_name arch.injection_map

pub add_rule : YagiRule → Architecture → Architecture
add_rule rule arch = record arch { extra_pool_rules = arch.extra_pool_rules ++ rule ∷ [] }

pub add_arch_action : YagiAction → Architecture → Architecture
add_arch_action action arch = record arch { arch_specific = arch.arch_specific ++ action ∷ [] }

pub add_init_action : YagiAction → Architecture → Architecture
add_init_action action arch = record arch { init_action = arch.init_action ++ action ∷ [] }

-- `buildAction`, after Ghidra's own.
pub build_action : Architecture → Architecture
build_action arch = record arch {
  rename_action =
      arch.rename_action
      ++ sync_stack_var
        ∷ rename_var (codes "register")
        ∷ rename_var (codes "stack")
        ∷ rename_var (codes "unique")
        ∷ rename_var (codes "const")
        ∷ [];
  retype_action =
      arch.retype_action
      ++ load_local_scope (codes "register")
        ∷ load_local_scope (codes "stack")
        ∷ load_local_scope (codes "unique")
        ∷ load_local_scope (codes "const")
        ∷ [];
}

windows_rules : Architecture → Architecture
unfolding add_injection add_rule
windows_rules arch =
    add_rule (windows_control_flow_guard (codes "guard_dispatch_icall_fptr"))
      (add_injection (codes "alloca_probe") (codes "alloca_probe") arch)

-- The switch of `build`.
pub for_language : Language → Architecture → Architecture
unfolding windows_rules add_arch_action add_init_action
for_language Language.x86 arch = windows_rules arch
for_language Language.x86_gcc arch = windows_rules arch
for_language Language.x86_windows arch = windows_rules arch
for_language Language.mips arch = add_arch_action mips_t9_optimization arch
for_language Language.ebpf arch = add_init_action add_ebpf_syscall arch
for_language Language.arm arch = arch
for_language Language.ppc arch = arch
for_language Language.sparc arch = arch
for_language Language.atmel arch = arch
for_language Language.p6502 arch = arch
for_language Language.z80 arch = arch

-- What `Architecture::init` of Ghidra ends with: it has called `buildAction`, or it throws
-- `LowlevelError` with an explanation.
pub data Init : Type 0 where
  initialised : Init
  lowlevel_error : Bytes → Init

-- The architecture a decompiler is built with, or the message that is logged.
pub data Built : Type 0 where
  decompiler : Architecture → Built
  not_built : Bytes → Built

unfoldable pub build_with : Init → Architecture → Built
unfolding build_action
build_with initialised arch = decompiler (build_action arch)
build_with (lowlevel_error explain) arch = not_built explain

-- `build`; `init` is Ghidra's.
unfoldable pub build : (Architecture → Init) → Compiler → Built
unfolding build_with
build init c =
    let arch =
      for_language c.language (architecture (compute_sleigh_id c) (compute_default_cc c)) in
    build_with (init arch) arch
