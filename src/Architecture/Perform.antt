-- ===== src/Architecture/Perform.antt =====
-- `YagiArchitecture::performActions` of yagi/src/yagiarchitecture.cc: the calls on Ghidra's groups
-- of actions, in their order.
pub mod Order
use yagi.Common.{
  ℕ, zero, suc, ◌+◌, Bool, true, false, List, [], ◌∷◌, ◌++◌, Bytes, codes, if◌then◌else◌,
}
use yagi.Common.Integers.{ℤ, ◌+ℤ◌, is_negative}
use yagi.Architecture.{Architecture, YagiAction}

-- The current group is Ghidra's.
pub data ActionGroup : Type 0 where
  current arch_specific rename_action retype_action init_action : ActionGroup

pub data Call : Type 0 where
  reset perform : ActionGroup → Call
  break_start : Bytes → Call
  clear_break_points : Call

-- The calls up to the second one of the current group.
abbrev pub first_calls : List Call
first_calls =
    reset current
    ∷ reset arch_specific
    ∷ reset rename_action
    ∷ reset retype_action
    ∷ reset init_action
    ∷ perform init_action
    ∷ break_start (codes "constbase")
    ∷ perform current
    ∷ perform arch_specific
    ∷ perform retype_action
    ∷ clear_break_points
    ∷ perform current
    ∷ []

-- What the last of the calls made returns is Ghidra's to say. The result, and the calls that are
-- made.
pub perform_actions : (List Call → ℤ) → ℤ × List Call
perform_actions answer =
    let res = answer first_calls in
    if is_negative res then (res, first_calls) else (
      res +ℤ answer (first_calls ++ perform rename_action ∷ []),
      first_calls ++ perform rename_action ∷ [],
    )
