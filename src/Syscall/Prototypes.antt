-- ===== src/Syscall/Prototypes.antt =====
-- The prototypes that `ActionAddeBPFSyscall::apply` gives the helpers.
use Prim.Native.String.{String}
use mathlib.Core.Bool.{false≢true}
use yagi.Common.{
  ℕ, ◌+◌, ◌≤◌, ◌≡◌, refl, sym, ap, ap₂, ◌∙◌, Bool, true, false, ◌&&◌, List, [], ◌∷◌, ◌++◌,
  append_assoc, append-nil, arith, length, length-append, All, ◌==◌, leb, leb→le, both, not, suc,
}
use yagi.Syscall.Calls.{Syscall, syscall, Datatype}
use yagi.Syscall.Register.{
  PrototypePieces, Effect, push_params, conclude, add_syscall, add_syscalls, apply,
}
use yagi.Syscall.Table.{syscalls}

abbrev Parameters : Type 0
Parameters = List (String × Datatype)

abbrev pub names : Parameters → List String
names [] = []
names ((name, type) ∷ params) = name ∷ names params

abbrev pub types : Parameters → List Datatype
types [] = []
types ((name, type) ∷ params) = type ∷ types params

abbrev prototype : Datatype → Bool → List String → List Datatype → PrototypePieces
prototype ret dots ns ts = record { innames = ns; intypes = ts; outtype = ret; dotdotdot = dots }

-- A prototype with parameters behind those it has.
abbrev pub extended : PrototypePieces → Datatype → Parameters → Bool → PrototypePieces
extended p ret params dots = record {
  innames = p.innames ++ names params;
  intypes = p.intypes ++ types params;
  outtype = ret;
  dotdotdot = dots;
}

conclude-push_params :
    (ret : Datatype) (dots : Bool) (params : Parameters) (p : PrototypePieces)
    → conclude ret dots (push_params params p) ≡ extended p ret params dots
unfolding conclude push_params
conclude-push_params ret dots [] p =
    ap₂ (prototype ret dots) (sym (append-nil p.innames)) (sym (append-nil p.intypes))
conclude-push_params ret dots ((name, type) ∷ params) p =
    conclude-push_params ret dots params record {
      innames = p.innames ++ name ∷ [];
      intypes = p.intypes ++ type ∷ [];
      outtype = p.outtype;
      dotdotdot = p.dotdotdot;
    }
    ∙ ap₂ (prototype ret dots) (append_assoc p.innames (name ∷ []) (names params))
        (append_assoc p.intypes (type ∷ []) (types params))

-- One `addSyscall` adds the function under its name and number, maps it, and gives it the
-- prototype it was added with, the new parameters behind the old ones in their order, the return
-- type and the dots replaced.
pub add_syscall-extended :
    (fresh : ℕ → PrototypePieces) (name : String) (n : ℕ) (ret : Datatype) (params : Parameters)
    (dots : Bool)
    → add_syscall fresh (syscall name n ret params dots)
      ≡ Effect.add_function n name
        ∷ Effect.add_map_point n
        ∷ Effect.set_pieces n (extended (fresh n) ret params dots)
        ∷ []
unfolding add_syscall
add_syscall-extended fresh name n ret params dots =
    ap (λ p. Effect.add_function n name ∷ Effect.add_map_point n ∷ Effect.set_pieces n p ∷ [])
      (conclude-push_params ret dots params (fresh n))

-- A prototype that is set has a name for each type, at most five parameters more than the
-- function was added with, as many as eBPF passes in registers, and a variable number of
-- arguments in `bpf_trace_printk` alone.
abbrev pub Fits : (ℕ → PrototypePieces) → Effect → Type 0
Fits fresh (Effect.add_function n name) = Unit
Fits fresh (Effect.add_map_point n) = Unit
Fits fresh (Effect.set_pieces n p) =
    (length p.innames ≡ length p.intypes)
    × (length p.intypes ≤ length (fresh n).intypes + 5)
    × (p.dotdotdot ≡ (n == 6))

abbrev same : Bool → Bool → Bool
same true b = b
same false b = not b

same→≡ : (a b : Bool) → same a b ≡ true → a ≡ b
same→≡ true true h = refl
same→≡ true false h = absurd (false≢true h)
same→≡ false true h = absurd (false≢true h)
same→≡ false false h = refl

abbrev is_short : Syscall → Bool
is_short (syscall name n ret params dots) = leb (length params) 5 && same dots (n == 6)

abbrev are_short : List Syscall → Bool
are_short [] = true
are_short (s ∷ rest) = is_short s && are_short rest

length-names : (params : Parameters) → length (names params) ≡ length (types params)
length-names [] = refl
length-names ((name, type) ∷ params) = ap suc (length-names params)

length-types : (params : Parameters) → length (types params) ≡ length params
length-types [] = refl
length-types ((name, type) ∷ params) = ap suc (length-types params)

extended-Fits :
    (fresh : ℕ → PrototypePieces) (n : ℕ) (ret : Datatype) (params : Parameters) (dots : Bool)
    → length (fresh n).innames ≡ length (fresh n).intypes
    → is_short (syscall "" n ret params dots) ≡ true
    → Fits fresh (Effect.set_pieces n (extended (fresh n) ret params dots))
extended-Fits fresh n ret params dots h short =
    let (few, dotted) = both (leb (length params) 5) (same dots (n == 6)) short in
    (
      omega (
        arith,
        h,
        length-names params,
        length-append {0} (fresh n).innames (names params),
        length-append {0} (fresh n).intypes (types params),
      ),
      omega (
        arith,
        leb→le (length params) 5 few,
        length-types params,
        length-append {0} (fresh n).intypes (types params),
      ),
      same→≡ dots (n == 6) dotted,
    )

add_syscalls-Fits :
    (fresh : ℕ → PrototypePieces) (table : List Syscall)
    → ((n : ℕ) → length (fresh n).innames ≡ length (fresh n).intypes)
    → are_short table ≡ true
    → All (Fits fresh) (add_syscalls fresh table)
unfolding add_syscalls
add_syscalls-Fits fresh [] h short = tt
add_syscalls-Fits fresh (syscall name n ret params dots ∷ rest) h short =
    let (here, below) = both (is_short (syscall name n ret params dots)) (are_short rest) short in
    rw (add_syscall-extended fresh name n ret params dots) (
      tt,
      (
        tt,
        (extended-Fits fresh n ret params dots (h n) here, add_syscalls-Fits fresh rest h below),
      ),
    )

are_short-syscalls : are_short syscalls ≡ true
are_short-syscalls = refl

-- Where each function that Ghidra adds has a name for each type of its parameters, so has each
-- prototype the action sets, with at most five parameters more, and with a variable number of
-- arguments exactly at number 6.
pub apply-Fits :
    (fresh : ℕ → PrototypePieces)
    → ((n : ℕ) → length (fresh n).innames ≡ length (fresh n).intypes)
    → All (Fits fresh) (apply fresh)
unfolding apply
apply-Fits fresh h = add_syscalls-Fits fresh syscalls h are_short-syscalls
