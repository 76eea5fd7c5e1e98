-- ===== src/Action/Clone.antt =====
-- The constructors and the `clone` of the actions of yagi/include/yagiaction.hh. Ghidra derives the
-- actions that it runs by cloning those of the groups that a list holds.
use yagi.Common.{
  arith, ◌≡◌, ◌↔◌, Bool, true, false, Option, none, some, Bytes, codes, if◌then◌else◌,
}
use yagi.Architecture.{
  YagiAction, add_ebpf_syscall, mips_t9_optimization, sync_stack_var, rename_var, load_local_scope,
}

-- What `Action` keeps of the constructors, beside the flag that all share, and the class with its
-- own member.
pub record Action : Type 0 where
  pub name : Bytes
  pub group : Bytes
  pub kind : YagiAction

pub new : Bytes → YagiAction → Action
new g sync_stack_var = record { name = codes "syncstackvar"; group = g; kind = sync_stack_var }
new g (rename_var space) = record { name = codes "renamevar"; group = g; kind = rename_var space }
new g (load_local_scope space) = record {
  name = codes "load";
  group = g;
  kind = load_local_scope space;
}
new g mips_t9_optimization = record { name = codes "load"; group = g; kind = mips_t9_optimization }
new g add_ebpf_syscall = record { name = codes "load"; group = g; kind = add_ebpf_syscall }

-- What each class creates.
pub copied : Bytes → YagiAction → Action
unfolding new
copied g sync_stack_var = new g sync_stack_var
copied g (rename_var space) = new g (rename_var space)
copied g (load_local_scope space) = new g sync_stack_var
copied g mips_t9_optimization = new g mips_t9_optimization
copied g add_ebpf_syscall = new g add_ebpf_syscall

-- `contains` is that of Ghidra's list of groups; `none` is the null pointer.
pub clone : (Bytes → Bool) → Action → Option Action
unfolding copied
clone contains a = if contains a.group then some (copied a.group a.kind) else none

abbrev pub loads_types : YagiAction → Bool
loads_types (load_local_scope space) = true
loads_types a = false

-- An action cloned for a list of groups is the action itself exactly if the list has its group
-- and it is not the one that brings the saved types in.
pub clone_iff :
    (contains : Bytes → Bool) (g : Bytes) (a : YagiAction)
    → (clone contains (new g a) ≡ some (new g a)) ↔ ((contains g ≡ true) × (loads_types a ≡ false))
unfolding clone new
clone_iff contains g sync_stack_var = ground arith
clone_iff contains g (rename_var space) = ground arith
clone_iff contains g (load_local_scope space) = ground arith
clone_iff contains g mips_t9_optimization = ground arith
clone_iff contains g add_ebpf_syscall = ground arith
