-- ===== src/Scope/Calls/Runs.antt =====
-- What a sequence of calls of the scope leaves behind where one of them throws, and where none does.
use yagi.Common.{◌≡◌, ◌⊎◌, List, [], ◌∷◌, ◌++◌, Option, none, some, Bytes}
use yagi.Scope.Calls.{ScopeCall, ProxyCalls, Reaction, reply, null_entry, new_scope, throws, call}

module _ (proxy : ProxyCalls) where
  open proxy use {S, Args, Reply}

  -- A reply is that of the scope behind, in the state that it leaves; anything else changes nothing.
  abbrev pub Sound : ScopeCall → Args → S → Reaction Reply × S → Type 0
  Sound c args s (reply r, s') = proxy.perform c args s ≡ (r, s')
  Sound c args s (null_entry, s') = s' ≡ s
  Sound c args s (new_scope, s') = s' ≡ s
  Sound c args s (throws message, s') = s' ≡ s

  -- The scope behind performs some of the calls, in their order.
  pub data Performs : List (ScopeCall × Args) → S → S → Type 0 where
    ended : {s : S} → Performs [] s s
    replied :
        {c : ScopeCall} {args : Args} {calls : List (ScopeCall × Args)} {s s' t : S} (r : Reply)
        → call proxy c args s ≡ (reply r, s')
        → proxy.perform c args s ≡ (r, s')
        → Performs calls s' t
        → Performs ((c, args) ∷ calls) s t
    answered :
        {c : ScopeCall} {args : Args} {calls : List (ScopeCall × Args)} {s t : S}
        → (call proxy c args s ≡ (null_entry, s)) ⊎ (call proxy c args s ≡ (new_scope, s))
        → Performs calls s t
        → Performs ((c, args) ∷ calls) s t

  -- No call throws; or the calls in front of one that throws are performed, and this one's
  -- exception is the last thing that happens, in the state that they leave.
  abbrev pub Stops : List (ScopeCall × Args) → S → Option Bytes × S → Type 0
  Stops calls s (none, t) = Performs calls s t
  Stops calls s (some message, t) =
      (before : List (ScopeCall × Args)) × (c : ScopeCall) × (args : Args) × (behind : List
        (ScopeCall × Args))
      × (calls ≡ before ++ (c, args) ∷ behind)
      × Performs before s t
      × (call proxy c args t ≡ (throws message, t))
