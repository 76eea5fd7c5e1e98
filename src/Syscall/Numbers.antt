-- ===== src/Syscall/Numbers.antt =====
-- Which helper numbers `ActionAddeBPFSyscall::apply` registers, and how often.
use yagi.Common.{
  ℕ, zero, suc, ◌≤◌, ◌<◌, ◌≡◌, refl, sym, ap, ◌∙◌, subst, Bool, true, false, ◌&&◌, ◌||◌, List, [],
  ◌∷◌, inl, inr, arith, ◌==◌, ltb, if◌then◌else◌, Bool-cases, ltb→lt, ==_iff, both,
}
use yagi.Syscall.Calls.{Syscall, syscall, number}
use yagi.Syscall.Register.{PrototypePieces, Effect, add_syscall, add_syscalls, apply}
use yagi.Syscall.Table.{syscalls}

-- How many functions the log adds at a number.
pub added_at : ℕ → List Effect → ℕ
added_at n [] = 0
added_at n (Effect.add_function m name ∷ log) =
    let rest = added_at n log in if m == n then suc rest else rest
added_at n (Effect.add_map_point m ∷ log) = added_at n log
added_at n (Effect.set_pieces m p ∷ log) = added_at n log

abbrev listed_at : ℕ → List Syscall → ℕ
listed_at n [] = 0
listed_at n (s ∷ rest) = let count = listed_at n rest in if number s == n then suc count else count

-- Every number up to the last one known, 0xa5, once: but 2 never, 0x2c and 0x2f twice.
abbrev pub expected_at : ℕ → ℕ
expected_at n = if n == 2 then 0 else if n == 44 || n == 47 then 2 else if ltb n 166 then 1 else 0

added_at-add_syscalls :
    (fresh : ℕ → PrototypePieces) (n : ℕ) (table : List Syscall)
    → added_at n (add_syscalls fresh table) ≡ listed_at n table
unfolding added_at add_syscalls add_syscall
added_at-add_syscalls fresh n [] = refl
added_at-add_syscalls fresh n (syscall name m ret params dots ∷ rest) =
    ap (λ k. if m == n then suc k else k) (added_at-add_syscalls fresh n rest)

-- A test that holds of every number below a bound.
abbrev all_below : ℕ → (ℕ → Bool) → Bool
all_below zero test = true
all_below (suc k) test = test k && all_below k test

all_below-at : (k : ℕ) (test : ℕ → Bool) → all_below k test ≡ true → (n : ℕ) → n < k → test n ≡ true
all_below-at zero test h n l = elim l [ ]
all_below-at (suc k) test h n l =
    let (here, below) = both (test k) (all_below k test) h in
    elim (Bool-cases (n == k)) [
      | inl e ↦ subst (λ m. test m ≡ true) (sym ((==_iff n k).0 e)) here
      | inr e ↦ all_below-at k test below n (ground arith)
    ]

abbrev is_numbered_below : ℕ → List Syscall → Bool
is_numbered_below k [] = true
is_numbered_below k (s ∷ rest) = ltb (number s) k && is_numbered_below k rest

listed_at-past :
    (k n : ℕ) (table : List Syscall)
    → is_numbered_below k table ≡ true
    → k ≤ n
    → listed_at n table ≡ 0
listed_at-past k n [] h l = refl
listed_at-past k n (s ∷ rest) h l =
    let (here, below) = both (ltb (number s) k) (is_numbered_below k rest) h in
    ground (arith, listed_at-past k n rest below l, ltb→lt (number s) k here)

table_counts : all_below 166 (λ n. listed_at n syscalls == expected_at n) ≡ true
table_counts = refl

table_bound : is_numbered_below 166 syscalls ≡ true
table_bound = refl

expected_past : (n : ℕ) → ltb n 166 ≡ false → expected_at n ≡ 0
expected_past n h = ground arith

listed_at-expected : (n : ℕ) → listed_at n syscalls ≡ expected_at n
listed_at-expected n = elim (Bool-cases (ltb n 166)) [
  | inl e ↦ (==_iff (listed_at n syscalls) (expected_at n)).0 (
      all_below-at 166 (λ m. listed_at m syscalls == expected_at m) table_counts n (ltb→lt n 166 e))
  | inr e ↦ listed_at-past 166 n syscalls table_bound (ground arith) ∙ sym (expected_past n e)
]

-- Whatever prototype Ghidra gives a function it adds, the action adds a function at 0x2c and at
-- 0x2f twice, at each other number below 0xa6 once, save at 2, where it adds none, and at no
-- number from 0xa6 on.
pub apply-added_at :
    (fresh : ℕ → PrototypePieces) (n : ℕ) → added_at n (apply fresh) ≡ expected_at n
unfolding apply
apply-added_at fresh n = added_at-add_syscalls fresh n syscalls ∙ listed_at-expected n
