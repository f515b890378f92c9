-- ===== src/ThreadRouting/Router/Decisions.antt =====
-- When src/lumina/thread_routing/router.py attaches, forks or creates, and when it asks.
use mathlib.Core.List.{Memᴰ}
use lumina_framework.Base.{
  ◌≤◌, ◌<◌, String, Bool, true, false, ◌&&◌, ◌||◌, Option, some, List, Result, ok, err, str_eq,
  if◌then◌else◌, strip, ◌≡◌, ◌≢◌, refl, ap, ◌∙◌, ◌↔◌, inl, inr, arith, All-mem, Bool-cases,
  Option-cases, test_of_ne,
}
use lumina_framework.ThreadRouting.Router.{
  RoutingAction, RationaleCode, Error, value_error, ThreadRoutingPolicy, ThreadCandidate,
  ThreadRoutingDecision, ordered_candidates, head?, find_active, or_else, drifted, Choice, create,
  choose, decided, is_attach, close_call, confirms, decide_thread_route,
}
use lumina_framework.ThreadRouting.Router.Ordering.{IsBest, ordered_head, ordered_none}
use lumina_framework.ThreadRouting.Router.Chain.{
  choose-manual, choose-attach, choose-attach_of, choose-source, choose-not_ambiguous,
}

is_attach_lem : (a : RoutingAction) → is_attach a ≡ true → a ≡ RoutingAction.attach_existing
is_attach_lem RoutingAction.attach_existing h = refl
is_attach_lem RoutingAction.create_new h = cc
is_attach_lem RoutingAction.fork_from h = cc

last_of_or : (a b c : Bool) → (a || (b || c)) ≡ false → c ≡ false
last_of_or a b c h = ground arith

ambiguous_asks :
    (manual close asks : Bool) (x : Choice)
    → x.rationale ≢ RationaleCode.ambiguous_attach
    → (if is_attach x.decision && close then RationaleCode.ambiguous_attach else x.rationale)
      ≡ RationaleCode.ambiguous_attach
    → (x.decision ≡ RoutingAction.attach_existing)
      × ((manual || ((is_attach x.decision && close) || asks)) ≡ true)
ambiguous_asks manual close asks x n h = elim (Bool-cases (is_attach x.decision && close)) [
  | inl e ↦ (is_attach_lem x.decision (ground arith), rw e (ground arith))
  | inr e ↦ absurd (n (rw e at h))
]

empty_named : (actor : String) → strip actor ≢ "" → str_eq actor "" ≡ false
empty_named actor n = test_of_ne actor "" (λ e. n (rw e (unfold strip in refl)))

module _ (cs : List ThreadCandidate) (policy : ThreadRoutingPolicy) (actor : String)
    (active decision_id new_thread_id : Option String) (uuid thread_uuid : String) where
  abbrev pub route : Result Error ThreadRoutingDecision
  route = decide_thread_route cs policy actor active decision_id new_thread_id uuid thread_uuid

  abbrev pub made : ThreadRoutingDecision
  made = decided cs policy actor active decision_id new_thread_id uuid thread_uuid

  abbrev os : List ThreadCandidate
  os = ordered_candidates cs policy.candidate_limit

  abbrev generated : String
  generated = or_else new_thread_id thread_uuid

  attach_of_head :
      0 < policy.candidate_limit
      → policy.manual_only ≡ false
      → (c : ThreadCandidate) → Memᴰ c cs
      → policy.attach_threshold ≤ c.score
      → (choose policy os active generated).decision ≡ RoutingAction.attach_existing
  attach_of_head room e c m reach = elim (Option-cases (head? os)) [
    | inl empty ↦ absurd (ordered_none cs policy.candidate_limit room empty c m)
    | inr (best, found) ↦
        let top =
          All-mem (λ (x : ThreadCandidate). x.score ≤ best.score)
            (ordered_head cs policy.candidate_limit best found).highest m in
        choose-attach_of policy generated os active best e found (omega arith)
  ]

  -- Routing raises exactly where the actor's name is blank, and otherwise returns a decision in the
  -- stripped name of the actor.
  pub route_total :
      ((strip actor ≡ "") → route ≡ err (value_error "thread routing requires actor_id"))
      × ((strip actor ≢ "") → (route ≡ ok made) × (made.actor_id ≡ strip actor))
  route_total = (
    λ e. unfold decide_thread_route in rw e (ground arith),
    λ n. (
      unfold decide_thread_route in rw (empty_named actor n, test_of_ne _ _ n),
      unfold decided in refl,
    ),
  )

  -- Under a policy with room for a candidate, a turn is attached to an existing thread exactly if the
  -- policy is not manual-only and some candidate reaches the attach threshold.
  pub attach_iff :
      0 < policy.candidate_limit
      → (made.decision ≡ RoutingAction.attach_existing) ↔ (
          (policy.manual_only ≡ false)
          × ((c : ThreadCandidate) × Memᴰ c cs × (policy.attach_threshold ≤ c.score)))
  attach_iff room = (
    λ h.
        let (c, e, best, reach, _, _) =
          choose-attach policy generated os active (unfold decided in h) in
        (e, (c, (ordered_head cs policy.candidate_limit c best).member, reach)),
    λ h. unfold decided in attach_of_head room h.0 h.1.0 h.1.1 h.1.2,
  )

  -- A turn that is attached goes to the thread of a candidate with the highest score of all, which
  -- reaches the attach threshold and is the decision's confidence.
  pub attach-IsBest :
      made.decision ≡ RoutingAction.attach_existing
      → (c : ThreadCandidate) × IsBest cs c
        × (made.thread_id ≡ c.thread_id)
        × (made.confidence ≡ c.score)
        × (policy.attach_threshold ≤ c.score)
  attach-IsBest h =
      let (c, e, best, reach, same_id, same_score) =
        choose-attach policy generated os active (unfold decided in h) in
      (
        c,
        ordered_head cs policy.candidate_limit c best,
        unfold decided in same_id,
        unfold decided in same_score,
        reach,
      )

  -- A decision names a source thread exactly if it forks, and the source is then the active thread,
  -- which is not among the candidates or scores below the fork threshold.
  pub fork_source :
      (t : String)
      → made.source_thread_id ≡ some t
      → (made.decision ≡ RoutingAction.fork_from)
        × (active ≡ some t)
        × (t ≢ "")
        × (drifted
              (find_active active (ordered_candidates cs policy.candidate_limit))
              policy.fork_threshold
            ≡ true)
  fork_source t h = unfold decided in choose-source policy generated os active t h

  -- A manual-only policy never attaches and always asks; an ambiguous attachment always asks; and a
  -- decision that does not ask is one whose action the policy does not ask for.
  pub confirmation :
      (policy.manual_only ≡ true
        → (made.decision ≡ RoutingAction.create_new) × (made.operator_confirmation_required ≡ true))
      × (made.rationale_code ≡ RationaleCode.ambiguous_attach
          → (made.decision ≡ RoutingAction.attach_existing)
            × (made.operator_confirmation_required ≡ true))
      × (made.operator_confirmation_required ≡ false
          → confirms made.decision policy.require_operator_confirmation_for ≡ false)
  confirmation = (
    λ e. (
      unfold decided in
          ap (λ (x : Choice). x.decision) (choose-manual policy generated os active e)
          ∙ unfold create in refl,
      unfold decided in rw e,
    ),
    λ h.
        unfold decided in
        ambiguous_asks policy.manual_only (close_call os policy.ambiguity_margin)
          (confirms (choose policy os active generated).decision
            policy.require_operator_confirmation_for)
          (choose policy os active generated) (choose-not_ambiguous policy generated os active) h,
    λ h.
        last_of_or policy.manual_only
          (is_attach (choose policy os active generated).decision
            && close_call os policy.ambiguity_margin)
          _ (unfold decided in h),
  )
