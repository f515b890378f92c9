-- ===== src/Core/StateMachine/Runs.antt =====
-- Sequences of `advance` of src/lumina/core/state_machine.py: what they can reach and record.
use lumina_framework.Base.{
  ℕ, ◌+◌, ◌≤◌, String, ◌≡◌, refl, ◌↔◌, inl, inr, true, Option, List, ◌++◌, [], ◌∷◌, map, Result, ok,
  err, arith, length, ◌>>=◌, Bool-cases, bind-inversion,
}
use lumina_framework.Base.{ap, ◌∙◌, sym, ok-injective, ok-ne-err}
use mathlib.Core.Bool.{false≢true}
use mathlib.Core.List.{map-append, append-nil, append_assoc}
use lumina_framework.Base.Dict.{Dict}
use lumina_framework.Core.StateMachine.{
  TransactionState, StateTransaction, Error, Transition, can_advance, advance, value,
  illegal_transition, or_else,
}
use lumina_framework.Core.StateMachine.Legal.{
  ◌⟶◌, validate, withdraw, commit, refuse, finalize, IsCommitted, IsCommitted-⟶, stage, stage-⟶,
  stage-le, ⟶-of_can_advance,
}

module _ {V : Type 0} where
  pub can_advance_of_⟶ :
      {s t : TransactionState} (x : StateTransaction V)
      → s ⟶ t
      → x.state ≡ s
      → can_advance x t ≡ true
  unfolding can_advance
  can_advance_of_⟶ x validate e = ground arith
  can_advance_of_⟶ x withdraw e = ground arith
  can_advance_of_⟶ x commit e = ground arith
  can_advance_of_⟶ x refuse e = ground arith
  can_advance_of_⟶ x finalize e = ground arith

  -- What a successful `advance` returns.
  pub advance_ok :
      (now : ℕ) (x : StateTransaction V) (target : TransactionState) (actor : Option String)
      (update : Option (Dict V)) {y : StateTransaction V}
      → advance now x target actor update ≡ ok y
      → (x.state ⟶ target)
        × (y.state ≡ target)
        × (y.transaction_id ≡ x.transaction_id)
        × (y.operation ≡ x.operation)
        × (y.created_at ≡ x.created_at)
        × (map (λ (h : Transition). h.state) y.history
            ≡ map (λ (h : Transition). h.state) x.history ++ (value target ∷ []))
  unfolding advance
  advance_ok now x target actor update {y} h = elim (Bool-cases (can_advance x target)) [
    | inl e ↦ (
      ⟶-of_can_advance x.state target x refl e,
      ground arith,
      ground arith,
      ground arith,
      ground arith,
      ground (
        arith,
        map-append (λ (h : Transition). h.state) x.history
            (record { state = value target; actor_id = or_else actor x.actor_id; timestamp = now }
              ∷ []),
      ),
    )
    | inr e ↦ absurd (ground arith)
  ]

  -- `advance` succeeds exactly along the edges of the diagram, and then arrives at its target; off
  -- the diagram it raises the error that names the two states.
  pub advance-Legal :
      (now : ℕ) (x : StateTransaction V) (target : TransactionState) (actor : Option String)
      (update : Option (Dict V))
      → (((y : StateTransaction V) × (advance now x target actor update ≡ ok y)
            × (y.state ≡ target))
          ↔ (x.state ⟶ target))
        × (¬ (x.state ⟶ target)
            → advance now x target actor update ≡ err (illegal_transition x.state target))
  unfolding advance
  advance-Legal now x target actor update = elim (Bool-cases (can_advance x target)) [
    | inl e ↦ rw e (
      (λ _. ⟶-of_can_advance x.state target x refl e, λ _. (_, refl, refl)),
      λ no_edge. absurd (no_edge (⟶-of_can_advance x.state target x refl e)),
    )
    | inr e ↦ rw e (
      (
        λ made. absurd (ok-ne-err (sym made.1)),
        λ edge. absurd (false≢true (sym e ∙ can_advance_of_⟶ x edge refl)),
      ),
      λ _. refl,
    )
  ]

-- One call of `advance`, with what its clock returns.
pub record Call (V : Type 0) : Type 0 where
  pub now : ℕ
  pub target : TransactionState
  pub actor_id : Option String
  pub update : Option (Dict V)

module _ {V : Type 0} where
  -- The calls in turn; the first that raises ends the run.
  unfoldable pub run : StateTransaction V → List (Call V) → Result Error (StateTransaction V)
  run x [] = ok x
  run x (c ∷ calls) = do y ← advance c.now x c.target c.actor_id c.update; run y calls

  -- A run of successful calls from a committed or finalized transaction ends in one: nothing that
  -- was committed is ever rolled back.
  pub run-IsCommitted :
      (x : StateTransaction V) (calls : List (Call V)) {y : StateTransaction V}
      → IsCommitted x.state
      → run x calls ≡ ok y
      → IsCommitted y.state
  unfolding run
  run-IsCommitted x [] c h = rw (← ok-injective h) c
  run-IsCommitted x (k ∷ calls) c h =
      let (z, p, q) = bind-inversion _ (λ z. run z calls) h in
      let facts = advance_ok k.now x k.target k.actor_id k.update p in
      run-IsCommitted z calls (rw facts.1 (IsCommitted-⟶ facts.0 c)) q

  -- A run that succeeds keeps the transaction's identity, its operation and its creation time, and
  -- adds to the history one entry for each call, with the value of that call's target, in order.
  pub run-history :
      (x : StateTransaction V) (calls : List (Call V)) {y : StateTransaction V}
      → run x calls ≡ ok y
      → (y.transaction_id ≡ x.transaction_id)
        × (y.operation ≡ x.operation)
        × (y.created_at ≡ x.created_at)
        × (map (λ (h : Transition). h.state) y.history
            ≡ map (λ (h : Transition). h.state) x.history
              ++ map (λ (c : Call V). value c.target) calls)
  unfolding run
  run-history x [] h = rw (← ok-injective h) (refl, refl, refl, rw append-nil)
  run-history x (k ∷ calls) h =
      let (z, p, q) = bind-inversion _ (λ z. run z calls) h in
      let facts = advance_ok k.now x k.target k.actor_id k.update p in
      let rest = run-history z calls q in
      (
        rest.0 ∙ facts.2,
        rest.1 ∙ facts.3,
        rest.2 ∙ facts.4,
        rest.3
            ∙ ap (λ l. l ++ map (λ (c : Call V). value c.target) calls) facts.5
            ∙ append_assoc (map (λ (h : Transition). h.state) x.history) _ _,
      )

  run-stage :
      (x : StateTransaction V) (calls : List (Call V)) {y : StateTransaction V}
      → run x calls ≡ ok y
      → stage x.state + length calls ≤ stage y.state
  unfolding run
  run-stage x [] h = rw (← ok-injective h) (omega arith)
  run-stage x (k ∷ calls) h =
      let (z, p, q) = bind-inversion _ (λ z. run z calls) h in
      let facts = advance_ok k.now x k.target k.actor_id k.update p in
      omega (arith, run-stage z calls q, stage-⟶ facts.0, ap stage facts.1)

  -- No transaction makes more than three transitions: every run of four or more calls raises.
  pub run-length-le :
      (x : StateTransaction V) (calls : List (Call V)) {y : StateTransaction V}
      → run x calls ≡ ok y
      → length calls ≤ 3
  run-length-le x calls {y} h = omega (arith, run-stage x calls h, stage-le y.state)
