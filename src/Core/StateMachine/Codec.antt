-- ===== src/Core/StateMachine/Codec.antt =====
-- `to_dict` and `from_dict` of src/lumina/core/state_machine.py. A field of the dictionary is
-- `none` where its key is missing.
use lumina_framework.Base.{
  get_or, ℕ, String, ◌≡◌, refl, ap, ◌∙◌, bind-inversion, ok-injective, Option, none, some, List, [],
  ◌∷◌, map, Result, ok, err, ◌>>=◌, str_eq, if◌then◌else◌, arith, eq_iff,
}
use lumina_framework.Base.Dict.{Dict}
use lumina_framework.Core.StateMachine.{
  TransactionState, proposed, validated, committed, finalized, rolled_back, value, Transition,
  StateTransaction, Error, key_error, value_error,
}

pub record TransitionDict : Type 0 where
  pub state : Option String
  pub actor_id : Option String
  pub timestamp : Option ℕ

pub record TransactionDict (V : Type 0) : Type 0 where
  pub transaction_id : Option String
  pub operation : Option String
  pub state : Option String
  pub actor_id : Option String
  pub created_at : Option ℕ
  pub updated_at : Option ℕ
  pub metadata : Option (Dict V)
  pub history : Option (List TransitionDict)

-- `d[key]`
abbrev pub require {ℓ} : {A : Type ℓ} → String → Option A → Result Error A
require key none = err (key_error key)
require key (some a) = ok a

pub require_ok {ℓ} :
    {A : Type ℓ} (key : String) (o : Option A) {a : A} → require key o ≡ ok a → o ≡ some a
require_ok key none h = cc
require_ok key (some b) h = cc

-- `TransactionState(text)`
unfoldable pub of_value : String → Result Error TransactionState
of_value text =
    if str_eq text "PROPOSED"
    then ok proposed
    else if str_eq text "VALIDATED"
    then ok validated
    else if str_eq text "COMMITTED"
    then ok committed
    else if str_eq text "FINALIZED"
    then ok finalized
    else if str_eq text "ROLLED_BACK"
    then ok rolled_back
    else err (value_error text)

unfoldable pub transition_dict : Transition → TransitionDict
transition_dict h = record {
  state = some h.state;
  actor_id = some h.actor_id;
  timestamp = some h.timestamp;
}

unfoldable pub transition_of : TransitionDict → Result Error Transition
transition_of d = do
  state ← require "state" d.state
  actor_id ← require "actor_id" d.actor_id
  timestamp ← require "timestamp" d.timestamp
  ok (record { state = state; actor_id = actor_id; timestamp = timestamp })

unfoldable pub history_of : List TransitionDict → Result Error (List Transition)
unfolding transition_of
history_of [] = ok []
history_of (d ∷ ds) = do h ← transition_of d; rest ← history_of ds; ok (h ∷ rest)

module _ {V : Type 0} where
  -- The values of the metadata are plain: `asdict` copies them, and would convert the fields of a dataclass value.
  unfoldable pub to_dict : StateTransaction V → TransactionDict V
  unfolding transition_dict value
  to_dict t = record {
    transaction_id = some t.transaction_id;
    operation = some t.operation;
    state = some (value t.state);
    actor_id = some t.actor_id;
    created_at = some t.created_at;
    updated_at = some t.updated_at;
    metadata = some t.metadata;
    history = some (map transition_dict t.history);
  }

  unfoldable pub from_dict : TransactionDict V → Result Error (StateTransaction V)
  unfolding history_of of_value
  from_dict d = do
    history ← history_of (get_or d.history [])
    transaction_id ← require "transaction_id" d.transaction_id
    text ← require "state" d.state
    state ← of_value text
    ok (record {
      transaction_id = transaction_id;
      operation = get_or d.operation "";
      state = state;
      actor_id = get_or d.actor_id "";
      created_at = get_or d.created_at 0;
      updated_at = get_or d.updated_at 0;
      metadata = get_or d.metadata [];
      history = history;
    })

pub of_value-value : (s : TransactionState) → of_value (value s) ≡ ok s
unfolding of_value value
of_value-value proposed = refl
of_value-value validated = refl
of_value-value committed = refl
of_value-value finalized = refl
of_value-value rolled_back = refl

-- A text that names a state names no other.
pub value-of_value : (text : String) {s : TransactionState} → of_value text ≡ ok s → text ≡ value s
unfolding of_value value
value-of_value text h = ground (
  arith,
  eq_iff text "PROPOSED",
  eq_iff text "VALIDATED",
  eq_iff text "COMMITTED",
  eq_iff text "FINALIZED",
  eq_iff text "ROLLED_BACK",
)

history_of-map : (hs : List Transition) → history_of (map transition_dict hs) ≡ ok hs
unfolding history_of transition_dict
history_of-map [] = refl
history_of-map (h ∷ hs) = rw (history_of-map hs)

module _ {V : Type 0} where
  -- Every transaction, whatever its state and history, is read back from its own dictionary.
  pub from_dict-to_dict : (t : StateTransaction V) → from_dict (to_dict t) ≡ ok t
  from_dict-to_dict t =
      let read = history_of-map t.history in unfold from_dict to_dict in rw (read, of_value-value)

  -- A dictionary is read only if it has a transaction id and a state that names one of the five, and
  -- the transaction then has that id and that state.
  pub from_dict_ok :
      (d : TransactionDict V) {t : StateTransaction V}
      → from_dict d ≡ ok t
      → (d.transaction_id ≡ some t.transaction_id) × (d.state ≡ some (value t.state))
  unfolding from_dict
  from_dict_ok d {t} h =
      let (hs, _, h₁) = bind-inversion (history_of (get_or d.history [])) _ h in
      let (i, p, h₂) = bind-inversion (require "transaction_id" d.transaction_id) _ h₁ in
      let (text, q, h₃) = bind-inversion (require "state" d.state) _ h₂ in
      let (s, r, h₄) = bind-inversion (of_value text) _ h₃ in
      let e = ok-injective h₄ in
      (
        require_ok _ _ p ∙ ap (λ (x : StateTransaction V). some x.transaction_id) e,
        require_ok _ _ q
            ∙ ap some (value-of_value text r)
            ∙ ap (λ (x : StateTransaction V). some (value x.state)) e,
      )
