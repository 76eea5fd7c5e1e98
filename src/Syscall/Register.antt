-- ===== src/Syscall/Register.antt =====
-- `ActionAddeBPFSyscall::addSyscall` and `apply`, yagi/src/yagiaction.cc. The calls on the
-- symbol scope are a log; an address of the space `syscall` is the number of the helper.
-- `fresh n` stands for the prototype Ghidra gives a function just added at `n`, of which the
-- fields are kept that the code names.
use Prim.Native.String.{String}
use yagi.Common.{ℕ, Bool, List, [], ◌∷◌, ◌++◌}
use yagi.Syscall.Calls.{Syscall, syscall, Datatype}
use yagi.Syscall.Table.{syscalls}

pub record PrototypePieces : Type 0 where
  pub innames : List String
  pub intypes : List Datatype
  pub outtype : Datatype
  pub dotdotdot : Bool

pub data Effect : Type 0 where
  add_function : ℕ → String → Effect
  add_map_point : ℕ → Effect
  set_pieces : ℕ → PrototypePieces → Effect

-- The loop over `params`: a name and a type at the back of each list.
unfoldable pub push_params : List (String × Datatype) → PrototypePieces → PrototypePieces
push_params [] p = p
push_params ((name, type) ∷ params) p = push_params params record {
  innames = p.innames ++ name ∷ [];
  intypes = p.intypes ++ type ∷ [];
  outtype = p.outtype;
  dotdotdot = p.dotdotdot;
}

unfoldable pub conclude : Datatype → Bool → PrototypePieces → PrototypePieces
conclude ret dots p = record {
  innames = p.innames;
  intypes = p.intypes;
  outtype = ret;
  dotdotdot = dots;
}

unfoldable pub add_syscall : (ℕ → PrototypePieces) → Syscall → List Effect
add_syscall fresh (syscall name n ret params dots) =
    Effect.add_function n name
    ∷ Effect.add_map_point n
    ∷ Effect.set_pieces n (conclude ret dots (push_params params (fresh n)))
    ∷ []

unfoldable pub add_syscalls : (ℕ → PrototypePieces) → List Syscall → List Effect
add_syscalls fresh [] = []
add_syscalls fresh (s ∷ rest) = add_syscall fresh s ++ add_syscalls fresh rest

unfoldable pub apply : (ℕ → PrototypePieces) → List Effect
apply fresh = add_syscalls fresh syscalls
