-- ===== src/Core/StateMachine.antt =====
-- src/lumina/core/state_machine.py: transactions that move through the four-stage ACK.
-- A timestamp is a number of clock ticks, handed in where the source reads the clock; `metadata`
-- is a dictionary over any type of values, since the kernel never inspects it.
pub mod Legal
pub mod Runs
pub mod Codec
mod Examples
use lumina_framework.Base.{
  ℕ, String, Bool, true, false, ◌||◌, Option, none, some, List, [], ◌∷◌, ◌++◌, Result, ok, err,
  ◌>>=◌, str_eq, if◌then◌else◌,
}
use lumina_framework.Base.Dict.{Dict, merge}

pub data TransactionState : Type 0 where
  proposed validated committed finalized rolled_back : TransactionState

unfoldable pub same_state : TransactionState → TransactionState → Bool
same_state proposed proposed = true
same_state validated validated = true
same_state committed committed = true
same_state finalized finalized = true
same_state rolled_back rolled_back = true
same_state _ _ = false

-- The `value` of the enumeration's member.
unfoldable pub value : TransactionState → String
value proposed = "PROPOSED"
value validated = "VALIDATED"
value committed = "COMMITTED"
value finalized = "FINALIZED"
value rolled_back = "ROLLED_BACK"

unfoldable pub legal_transitions : TransactionState → List TransactionState
legal_transitions proposed = validated ∷ rolled_back ∷ []
legal_transitions validated = committed ∷ rolled_back ∷ []
legal_transitions committed = finalized ∷ []
legal_transitions finalized = []
legal_transitions rolled_back = []

-- `target in targets`
unfoldable pub state_in : TransactionState → List TransactionState → Bool
unfolding same_state
state_in target [] = false
state_in target (s ∷ targets) = same_state s target || state_in target targets

pub record Transition : Type 0 where
  pub state : String
  pub actor_id : String
  pub timestamp : ℕ

pub record StateTransaction (V : Type 0) : Type 0 where
  pub transaction_id : String
  pub operation : String
  pub state : TransactionState
  pub actor_id : String
  pub created_at : ℕ
  pub updated_at : ℕ
  pub metadata : Dict V
  pub history : List Transition

pub data Error : Type 0 where
  illegal_transition : TransactionState → TransactionState → Error
  key_error : String → Error
  value_error : String → Error

-- The optional texts of Python: `a or b`, where `None` and "" are false.
abbrev pub or_else : Option String → String → String
or_else none b = b
or_else (some a) b = if str_eq a "" then b else a

-- `metadata_update or {}`
abbrev pub or_empty {ℓ} : {V : Type ℓ} → Option (Dict V) → Dict V
or_empty none = []
or_empty (some u) = u

module _ {V : Type 0} where
  unfoldable pub legal_targets : StateTransaction V → List TransactionState
  unfolding legal_transitions
  legal_targets t = legal_transitions t.state

  unfoldable pub is_terminal : StateTransaction V → Bool
  unfolding legal_transitions
  is_terminal t = elim (legal_transitions t.state) [ [] ↦ true | _ ↦ false ]

  unfoldable pub can_advance : StateTransaction V → TransactionState → Bool
  unfolding legal_transitions state_in
  can_advance t target = state_in target (legal_transitions t.state)

  -- `now` is what `time.time()` returns.
  unfoldable pub advance :
      ℕ
      → StateTransaction V
      → TransactionState
      → Option String
      → Option (Dict V)
      → Result Error (StateTransaction V)
  unfolding can_advance value merge
  advance now t target actor_id metadata_update =
      if can_advance t target
      then ok (record {
        transaction_id = t.transaction_id;
        operation = t.operation;
        state = target;
        actor_id = or_else actor_id t.actor_id;
        created_at = t.created_at;
        updated_at = now;
        metadata = merge t.metadata (or_empty metadata_update);
        history =
            t.history
            ++ record {
              state = value target;
              actor_id = or_else actor_id t.actor_id;
              timestamp = now;
            }
              ∷ [];
      })
      else err (illegal_transition t.state target)
