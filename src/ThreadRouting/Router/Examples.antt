-- ===== src/ThreadRouting/Router/Examples.antt =====
-- Tests of the model of src/lumina/thread_routing/router.py, and its theorems at concrete candidates.
use mathlib.Core.List.{Memᴰ, Permᴰ}
use lumina_framework.Base.{
  ◌≤◌, String, true, false, Option, none, some, List, [], ◌∷◌, err, ◌≡◌, refl, ◌↔◌, arith, str_eq,
  if◌then◌else◌, strip,
}
use lumina_framework.ThreadRouting.Router.{
  RoutingAction, RationaleCode, ConfirmationAction, value_error, ThreadRoutingPolicy,
  ThreadCandidate, ThreadRoutingDecision, find_active, ordered_candidates, choose, close_call,
  confirms, decided, decide_thread_route, create, attach_or, fork_or_create, thread_candidate,
  ranked,
}
use lumina_framework.ThreadRouting.Router.Ordering.{IsBest}
use lumina_framework.ThreadRouting.Router.Decisions.{attach_iff, attach-IsBest}
use lumina_framework.ThreadRouting.Router.Stable.{decide_thread_route-Permᴰ}

abbrev pump : ThreadCandidate
pump = record { thread_id = "pump"; summary_record_id = "s-1"; score = 720000 }

abbrev invoice : ThreadCandidate
invoice = record { thread_id = "invoice"; summary_record_id = "s-2"; score = 900000 }

abbrev payroll : ThreadCandidate
payroll = record { thread_id = "payroll"; summary_record_id = "s-3"; score = 880000 }

abbrev policy : ThreadRoutingPolicy
policy = record {
  policy_version = 1;
  attach_threshold = 820000;
  fork_threshold = 450000;
  ambiguity_margin = 50000;
  recap_interval_turns = 10;
  candidate_limit = 2;
  manual_only = false;
  require_operator_confirmation_for = ConfirmationAction.fork_from ∷ [];
  organization_id = "org";
  site_id = "site";
}

abbrev decide : List ThreadCandidate → ThreadRoutingPolicy → Option String → ThreadRoutingDecision
decide cs p active = decided cs p " ann " active none none "d-1" "thread-1"

attach_test :
    let d = decide (pump ∷ payroll ∷ invoice ∷ []) policy (some "pump") in
    (d.thread_id ≡ "invoice")
    × (d.rationale_code ≡ RationaleCode.ambiguous_attach)
    × (d.operator_confirmation_required ≡ true)
    × (d.actor_id ≡ "ann")
    × (d.candidates ≡ invoice ∷ payroll ∷ [])
unfolding decided ordered_candidates choose attach_or fork_or_create create find_active close_call
    confirms strip
attach_test = (refl, refl, refl, refl, refl)

fork_test : (decide (pump ∷ []) policy (some "gone")).source_thread_id ≡ some "gone"
unfolding decided ordered_candidates choose attach_or fork_or_create create find_active
fork_test = refl

blank_test :
    decide_thread_route [] policy "  " none none none "d-1" "thread-1"
    ≡ err (value_error "thread routing requires actor_id")
unfolding decide_thread_route strip
blank_test = refl

attached : (decide (pump ∷ invoice ∷ []) policy none).decision ≡ RoutingAction.attach_existing
unfolding decided ordered_candidates choose attach_or fork_or_create create find_active
attached = refl

attach_iff_example :
    ((decide (pump ∷ invoice ∷ []) policy none).decision ≡ RoutingAction.attach_existing) ↔ (
      (false ≡ false) × ((c : ThreadCandidate) × Memᴰ c (pump ∷ invoice ∷ []) × (820000 ≤ c.score)))
attach_iff_example =
    attach_iff (pump ∷ invoice ∷ []) policy " ann " none none none "d-1" "thread-1" (omega arith)

attach-IsBest_example :
    (c : ThreadCandidate) × IsBest (pump ∷ invoice ∷ []) c
    × ((decide (pump ∷ invoice ∷ []) policy none).thread_id ≡ c.thread_id)
    × ((decide (pump ∷ invoice ∷ []) policy none).confidence ≡ c.score)
    × (820000 ≤ c.score)
attach-IsBest_example =
    attach-IsBest (pump ∷ invoice ∷ []) policy " ann " none none none "d-1" "thread-1" attached

abbrev manual : ThreadRoutingPolicy
manual = record policy { manual_only = true }

abbrev table : String → ThreadCandidate
table t =
    if str_eq t "pump"
    then pump
    else if str_eq t "invoice"
    then invoice
    else record payroll { thread_id = t }

decide_thread_route-Permᴰ_example :
    decide_thread_route (pump ∷ invoice ∷ []) policy "ann" none none none "d-1" "thread-1"
    ≡ decide_thread_route (invoice ∷ pump ∷ []) policy "ann" none none none "d-1" "thread-1"
decide_thread_route-Permᴰ_example =
    decide_thread_route-Permᴰ table policy "ann" none none none "d-1" "thread-1"
      (Permᴰ.swap refl refl) (refl, (refl, tt))

invalid_candidate_test :
    thread_candidate "t" "s" 1000001
    ≡ err (value_error "thread candidate score must be between 0 and 1")
unfolding thread_candidate
invalid_candidate_test = refl

ranked_test :
    ranked 1 (pump ∷ invoice ∷ [])
    ≡ record { candidate = pump; rank = 1 } ∷ record { candidate = invoice; rank = 2 } ∷ []
unfolding ranked
ranked_test = refl
