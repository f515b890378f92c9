-- ===== src/CodingAgent/Dag/Examples.antt =====
-- Tests of the model of model-packs/coding-agent/domain-lib/dag_validator.py, and its theorems at one plan.
use lumina_framework.Base.{String, List, [], ◌∷◌, ok, err, ◌≡◌, ◌≢◌, ◌↔◌, refl, elem, All, ◌≤◌}
use lumina_framework.Base.Order.{text_leb}
use lumina_framework.Base.Sorting.{sort, insert}
use lumina_framework.Base.Counting.{count}
use lumina_framework.CodingAgent.Dag.{
  PlanNode, PlanDag, Error, without, node_ids, edges_to, edges_of, node_of, nodes_of, indegree,
  children, release, visit, loop, roots, start, finish, sorted_ids, stable_topological_sort,
}
use lumina_framework.CodingAgent.Dag.Spec.{IsOrder}
use lumina_framework.CodingAgent.Dag.Sorted.{sorted_ids-IsOrder, sorted_ids_iff}
use lumina_framework.CodingAgent.Dag.Ready.{
  TaskSlice, ExecutionContext, ids_of, duplicates, unknown, dangling, validate_dag, all_in,
  ready_in, ready_node_ids, slice_of, slices_in, next_ready_slices,
}
use lumina_framework.CodingAgent.Dag.Ready.Valid.{IsKnown, validate_dag_clean}
use lumina_framework.CodingAgent.Dag.Ready.Progress.{ready_progress}
use lumina_framework.CodingAgent.Dag.Ready.Slices.{IsRunnable, next_ready_slices-IsRunnable}

abbrev plan_node : String → List String → PlanNode
plan_node id deps = record {
  node_id = id;
  description = "";
  depends_on = deps;
  tier_hint = 2;
  action_type = "implement";
  parent_node_id = "";
}

abbrev plan : PlanDag
plan = record {
  nodes =
      plan_node "ship" ("test" ∷ "docs" ∷ [])
      ∷ plan_node "test" ("code" ∷ [])
      ∷ plan_node "docs" ("code" ∷ [])
      ∷ plan_node "code" []
      ∷ [];
  created_at = "noon";
}

abbrev circular : PlanDag
circular = record plan { nodes = plan_node "a" ("b" ∷ []) ∷ plan_node "b" ("a" ∷ []) ∷ [] }

abbrev order : List String
order = "code" ∷ "docs" ∷ "test" ∷ "ship" ∷ []

plan_order : sorted_ids plan.nodes ≡ ok order
unfolding sorted_ids node_ids without edges_of edges_to start loop finish visit release children
    roots indegree sort insert text_leb elem
plan_order = refl

circular_order : sorted_ids circular.nodes ≡ err Error.cycle_detected
unfolding sorted_ids node_ids without edges_of edges_to start loop finish visit release children
    roots indegree sort insert text_leb elem
circular_order = refl

plan_clean : validate_dag plan ≡ []
unfolding validate_dag duplicates unknown dangling stable_topological_sort sorted_ids node_ids
    without edges_of edges_to start loop finish visit release children roots indegree sort insert
    text_leb elem nodes_of node_of
plan_clean = refl

abbrev slice : String → String → TaskSlice
slice slice_id node_id = record {
  slice_id = slice_id;
  node_id = node_id;
  task_description = "";
  allowed_tools = [];
  context_budget_tokens = 4000;
  tier = 3;
  model_class = "small";
  depends_on = [];
  parent_node_id = "";
}

abbrev slices : List TaskSlice
slices = slice "s1" "test" ∷ slice "s2" "docs" ∷ slice "s3" "ship" ∷ []

abbrev context : ExecutionContext
context = record { completed_node_ids = "code" ∷ []; failed_node_ids = "docs" ∷ [] }

runnable : next_ready_slices plan slices context ≡ ok (slice "s1" "test" ∷ [])
unfolding next_ready_slices slices_in slice_of ready_node_ids ready_in all_in
    stable_topological_sort sorted_ids node_ids without edges_of edges_to start loop finish visit
    release children roots indegree sort insert text_leb elem nodes_of node_of
runnable = refl

sorted_ids-IsOrder_example : IsOrder plan.nodes order
sorted_ids-IsOrder_example = sorted_ids-IsOrder plan.nodes order plan_order

sorted_ids_iff_example :
    (((ids : List String) × (sorted_ids plan.nodes ≡ ok ids))
      ↔ ((xs : List String) × IsOrder plan.nodes xs))
    × ((sorted_ids plan.nodes ≡ err Error.cycle_detected)
        ↔ ¬ ((xs : List String) × IsOrder plan.nodes xs))
sorted_ids_iff_example = sorted_ids_iff plan.nodes

validate_dag_clean_example : (validate_dag plan ≡ []) ↔ (
    ((c : String) → count c (ids_of plan.nodes) ≤ 1)
    × All (IsKnown (ids_of plan.nodes)) plan.nodes
    × ((xs : List String) × IsOrder plan.nodes xs))
validate_dag_clean_example = validate_dag_clean plan

ready_progress_example :
    (ready : List String) × (ready_node_ids plan ("code" ∷ []) ≡ ok ready) × (ready ≢ [])
unfolding elem
ready_progress_example = ready_progress plan ("code" ∷ []) "ship" plan_clean refl refl

next_ready_slices-IsRunnable_example : All (IsRunnable plan slices context) (slice "s1" "test" ∷ [])
next_ready_slices-IsRunnable_example =
    next_ready_slices-IsRunnable plan slices context (slice "s1" "test" ∷ []) runnable
