-- ===== src/Core/StateMachine/Legal.antt =====
-- The transition diagram of src/lumina/core/state_machine.py as a relation, and what a run of it
-- can reach.
use lumina_framework.Base.{ℕ, ◌+◌, ◌≤◌, ◌≡◌, ◌⊎◌, true, arith}
use lumina_framework.Core.StateMachine.{
  TransactionState, proposed, validated, committed, finalized, rolled_back, StateTransaction,
  can_advance,
}

infix 40 ◌⟶◌ ◌⟶*◌
pub data ◌⟶◌ : TransactionState → TransactionState → Type 0 where
  validate : proposed ⟶ validated
  withdraw : proposed ⟶ rolled_back
  commit : validated ⟶ committed
  refuse : validated ⟶ rolled_back
  finalize : committed ⟶ finalized

pub data ◌⟶*◌ (s : TransactionState) : TransactionState → Type 0 where
  here : s ⟶* s
  then : {t u : TransactionState} → s ⟶* t → t ⟶ u → s ⟶* u

pub ruleset edges = (validate, withdraw, commit, refuse, finalize)

-- Past the point of no return.
abbrev pub IsCommitted : TransactionState → Type 0
IsCommitted s = (s ≡ committed) ⊎ (s ≡ finalized)

pub IsCommitted-⟶ : {s t : TransactionState} → s ⟶ t → IsCommitted s → IsCommitted t
IsCommitted-⟶ validate h = ground arith
IsCommitted-⟶ withdraw h = ground arith
IsCommitted-⟶ commit h = ground arith
IsCommitted-⟶ refuse h = ground arith
IsCommitted-⟶ finalize h = ground arith

-- The stages behind a state: how many transitions were made at least.
unfoldable pub stage : TransactionState → ℕ
stage proposed = 0
stage validated = 1
stage committed = 2
stage finalized = 3
stage rolled_back = 3

pub stage-⟶ : {s t : TransactionState} → s ⟶ t → stage s + 1 ≤ stage t
unfolding stage
stage-⟶ validate = omega arith
stage-⟶ withdraw = omega arith
stage-⟶ commit = omega arith
stage-⟶ refuse = omega arith
stage-⟶ finalize = omega arith

pub stage-le : (s : TransactionState) → stage s ≤ 3
unfolding stage
stage-le s = ground arith

module _ {V : Type 0} where
  pub ⟶-of_can_advance :
      (s t : TransactionState) (x : StateTransaction V)
      → x.state ≡ s
      → can_advance x t ≡ true
      → s ⟶ t
  unfolding can_advance
  ⟶-of_can_advance s t x e h = grind (arith, edges)
