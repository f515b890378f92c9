-- ===== src/Core/StateMachine/Examples.antt =====
-- Tests of src/lumina/core/state_machine.py's model, and its theorems at concrete transactions.
use lumina_framework.Base.{ℕ, ◌≡◌, refl, ◌↔◌, inl, none, some, List, [], ◌∷◌, ◌++◌, map, ok, err}
use lumina_framework.Core.StateMachine.{
  proposed, validated, committed, finalized, rolled_back, StateTransaction, Transition, advance,
  illegal_transition, value,
}
use lumina_framework.Core.StateMachine.Legal.{◌⟶◌, IsCommitted}
use lumina_framework.Core.StateMachine.Runs.{Call, run, advance-Legal, run-IsCommitted, run-history}
use lumina_framework.Core.StateMachine.Codec.{to_dict, from_dict, from_dict-to_dict}

-- The transaction of a staged file, as its constructor leaves it.
abbrev fresh : StateTransaction ℕ
fresh = record {
  transaction_id = "t-1";
  operation = "stage_file:profile";
  state = proposed;
  actor_id = "alice";
  created_at = 10;
  updated_at = 10;
  metadata = ("size", 3) ∷ [];
  history = [];
}

abbrev after_commit : StateTransaction ℕ
after_commit = record {
  transaction_id = "t-1";
  operation = "stage_file:profile";
  state = committed;
  actor_id = "bob";
  created_at = 10;
  updated_at = 12;
  metadata = ("size", 4) ∷ [];
  history =
      record { state = "VALIDATED"; actor_id = "alice"; timestamp = 11 }
      ∷ record { state = "COMMITTED"; actor_id = "bob"; timestamp = 12 }
      ∷ [];
}

abbrev to_commit : List (Call ℕ)
to_commit =
    record { now = 11; target = validated; actor_id = some ""; update = none }
    ∷ record {
      now = 12;
      target = committed;
      actor_id = some "bob";
      update = some (("size", 4) ∷ []);
    }
    ∷ []

abbrev to_final : List (Call ℕ)
to_final = record { now = 13; target = finalized; actor_id = none; update = none } ∷ []

committed_test : run fresh to_commit ≡ ok after_commit
unfolding run advance
committed_test = refl

no_rollback_test :
    advance 13 after_commit rolled_back none none ≡ err (illegal_transition committed rolled_back)
unfolding advance
no_rollback_test = refl

final_test :
    run after_commit to_final
    ≡ ok (record after_commit {
      state = finalized;
      updated_at = 13;
      history =
          after_commit.history
          ++ record { state = "FINALIZED"; actor_id = "bob"; timestamp = 13 } ∷ [];
    })
unfolding run advance
final_test = refl

abbrev advance-Legal_statement : Type 0
advance-Legal_statement =
    (((y : StateTransaction ℕ) × (advance 11 fresh validated none none ≡ ok y)
        × (y.state ≡ validated))
      ↔ (proposed ⟶ validated))
    × (¬ (proposed ⟶ validated)
        → advance 11 fresh validated none none ≡ err (illegal_transition proposed validated))

advance-Legal_example : advance-Legal_statement
advance-Legal_example = advance-Legal 11 fresh validated none none

run-IsCommitted_example : IsCommitted finalized
run-IsCommitted_example = run-IsCommitted after_commit to_final (inl refl) final_test

run-history_example :
    (after_commit.transaction_id ≡ fresh.transaction_id)
    × (after_commit.operation ≡ fresh.operation)
    × (after_commit.created_at ≡ fresh.created_at)
    × (map (λ (h : Transition). h.state) after_commit.history
        ≡ [] ++ map (λ (c : Call ℕ). value c.target) to_commit)
run-history_example = run-history fresh to_commit committed_test

from_dict-to_dict_example : from_dict (to_dict after_commit) ≡ ok after_commit
from_dict-to_dict_example = from_dict-to_dict after_commit
