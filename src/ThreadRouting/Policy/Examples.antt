-- ===== src/ThreadRouting/Policy/Examples.antt =====
-- A policy document for the model of src/lumina/thread_routing/policy.py, and its theorems at it.
use lumina_framework.Base.{
  false, List, [], ◌∷◌, ok, ◌≡◌, ◌≢◌, refl, strip, lstrip, rstrip, is_space, elem, ne_of_test,
}
use lumina_framework.Base.Dict.{Dict, get, put, merge}
use lumina_framework.ThreadRouting.Router.{ThreadRoutingPolicy, ThreadCandidate, ConfirmationAction}
use lumina_framework.ThreadRouting.Policy.{
  Value, integer, decimal, boolean, text, sequence, mapping, Items, end, item, nil, cons,
  resolve_thread_routing_policy, require_scope, validate_policy_header, extra_keys, absent_keys,
  refuse_names, as_mapping, section, merge_policy, without_sites, validate_resolved_policy, field,
  number, positive_integer, confirmation_actions, actions_in, action_of, all_distinct, has_action,
  same_action, switch,
}
use lumina_framework.ThreadRouting.Policy.Valid.{IsPolicyOf, resolve-IsPolicy}

abbrev defaults : Items
defaults = item "attach_threshold" (decimal 800000) (
    item "fork_threshold" (decimal 400000) (
      item "ambiguity_margin" (decimal 50000) (
        item "recap_interval_turns" (integer 5) (
          item "candidate_limit" (integer 3) (
            item "manual_only" (boolean false) (
              item "require_operator_confirmation_for" (sequence (cons (text "fork_from") nil))
                end))))))

abbrev organizations : Items
organizations =
    item "acme"
      (mapping (
        item "attach_threshold" (decimal 700000) (
          item "sites"
            (mapping (item "east" (mapping (item "attach_threshold" (integer 1) end)) end)) end)))
      end

abbrev config : Dict Value
config =
    ("schema_version", text "1.0.0")
    ∷ ("policy_version", integer 2)
    ∷ ("defaults", mapping defaults)
    ∷ ("organizations", mapping organizations)
    ∷ []

abbrev acme_east : ThreadRoutingPolicy
acme_east = record {
  policy_version = 2;
  attach_threshold = 1000000;
  fork_threshold = 400000;
  ambiguity_margin = 50000;
  recap_interval_turns = 5;
  candidate_limit = 3;
  manual_only = false;
  require_operator_confirmation_for = ConfirmationAction.fork_from ∷ [];
  organization_id = "acme";
  site_id = "east";
}

resolved : resolve_thread_routing_policy config " acme" "east" ≡ ok acme_east
unfolding resolve_thread_routing_policy require_scope strip lstrip rstrip is_space
    validate_policy_header extra_keys absent_keys refuse_names as_mapping section merge_policy
    without_sites validate_resolved_policy field number positive_integer confirmation_actions
    actions_in action_of all_distinct has_action same_action switch get put merge elem
resolved = refl

abbrev candidates : List ThreadCandidate
candidates = record { thread_id = "t1"; summary_record_id = "s1"; score = 1000000 } ∷ []

actor_named : strip "ann" ≢ ""
unfolding strip lstrip rstrip is_space
actor_named = ne_of_test _ _ refl

resolve-IsPolicy_example :
    IsPolicyOf (strip " acme") (strip "east") acme_east × (strip " acme" ≢ "") × (strip "east" ≢ "")
resolve-IsPolicy_example = resolve-IsPolicy config " acme" "east" resolved
