-- ===== src/CodingAgent/Dag/Ready.antt =====
-- model-packs/coding-agent/domain-lib/dag_validator.py: the checks of a plan and its ready nodes; and
-- tier3_ready_scheduler.py: the slices that may run next.
pub mod Valid
pub mod Progress
pub mod Slices
use lumina_framework.Base.{
  ℕ, String, Bool, true, false, not, ◌&&◌, ◌||◌, Option, none, some, List, [], ◌∷◌, ◌++◌, map,
  Result, ok, err, ◌>>=◌, str_eq, if◌then◌else◌, elem,
}
use lumina_framework.CodingAgent.Dag.{PlanNode, PlanDag, Error, node_ids, stable_topological_sort}

pub data Problem : Type 0 where
  duplicate_node_id : String → Problem
  dangling_depends_on missing_global_parent slice_missing_parent slice_dangling_depends_on :
      String → String → Problem
  cycle_or_sort_error : Error → Problem
  unknown_slice_node already_completed failed_node_blocked : String → Problem
  dependency_not_ready : String → String → Problem

abbrev pub ids_of : List PlanNode → List String
ids_of = map (λ (n : PlanNode). n.node_id)

unfoldable pub duplicates : List String → List String → List Problem
unfolding elem
duplicates seen [] = []
duplicates seen (id ∷ ids) =
    let rest = duplicates (id ∷ seen) ids in
    if elem id seen then duplicate_node_id id ∷ rest else rest

-- The dependencies that are not among `ids`, each as a problem.
unfoldable pub unknown : (String → Problem) → List String → List String → List Problem
unfolding elem
unknown problem ids [] = []
unknown problem ids (dep ∷ deps) =
    let rest = unknown problem ids deps in if elem dep ids then rest else problem dep ∷ rest

unfoldable pub dangling : List String → List PlanNode → List Problem
unfolding unknown
dangling ids [] = []
dangling ids (n ∷ ns) = unknown (dangling_depends_on n.node_id) ids n.depends_on ++ dangling ids ns

abbrev pub sort_problem : {A : Type 0} → Result Error A → List Problem
sort_problem (ok _) = []
sort_problem (err e) = cycle_or_sort_error e ∷ []

unfoldable pub validate_dag : PlanDag → List Problem
unfolding duplicates dangling stable_topological_sort
validate_dag dag =
    duplicates [] (ids_of dag.nodes)
    ++ dangling (ids_of dag.nodes) dag.nodes
    ++ sort_problem (stable_topological_sort dag)

-- `all(x in ys for x in xs)`
unfoldable pub all_in : List String → List String → Bool
unfolding elem
all_in [] ys = true
all_in (x ∷ xs) ys = elem x ys && all_in xs ys

unfoldable pub ready_in : List String → List PlanNode → List String
unfolding elem all_in
ready_in completed [] = []
ready_in completed (n ∷ ns) =
    let rest = ready_in completed ns in
    if elem n.node_id completed
    then rest
    else if all_in n.depends_on completed
    then n.node_id ∷ rest
    else rest

unfoldable pub ready_node_ids : PlanDag → List String → Result Error (List String)
unfolding stable_topological_sort ready_in
ready_node_ids dag completed_node_ids = do
  ordered ← stable_topological_sort dag
  ok (ready_in completed_node_ids ordered)

-- `a or b`
abbrev pub or_text : String → String → String
or_text a b = if str_eq a "" then b else a

unfoldable pub micro_lineage : List String → List PlanNode → List Problem
unfolding elem
micro_lineage global_ids [] = []
micro_lineage global_ids (n ∷ ns) =
    let rest = micro_lineage global_ids ns in
    let parent = or_text n.parent_node_id n.node_id in
    if elem parent global_ids then rest else missing_global_parent n.node_id parent ∷ rest

unfoldable pub validate_micro_dag_lineage : PlanDag → PlanDag → List Problem
unfolding micro_lineage
validate_micro_dag_lineage global_dag micro_dag =
    micro_lineage (ids_of global_dag.nodes) micro_dag.nodes

pub record TaskSlice : Type 0 where
  pub slice_id : String
  pub node_id : String
  pub task_description : String
  pub allowed_tools : List String
  pub context_budget_tokens : ℕ
  pub tier : ℕ
  pub model_class : String
  pub depends_on : List String
  pub parent_node_id : String

unfoldable pub slice_lineage : List String → List TaskSlice → List Problem
unfolding elem unknown
slice_lineage ids [] = []
slice_lineage ids (s ∷ ss) =
    let parent = or_text s.parent_node_id s.node_id in
    (if elem parent ids then [] else slice_missing_parent s.slice_id parent ∷ [])
    ++ unknown (slice_dangling_depends_on s.slice_id) ids s.depends_on
    ++ slice_lineage ids ss

unfoldable pub validate_task_slice_lineage : PlanDag → List TaskSlice → List Problem
unfolding slice_lineage
validate_task_slice_lineage dag slices = slice_lineage (ids_of dag.nodes) slices

pub record ExecutionContext : Type 0 where
  pub completed_node_ids : List String
  pub failed_node_ids : List String

unfoldable pub is_node_ready : String → PlanDag → ExecutionContext → Result Error Bool
unfolding ready_node_ids elem
is_node_ready node_id dag context = do
  ready ← ready_node_ids dag context.completed_node_ids
  ok (elem node_id ready)

unfoldable pub blocked : Bool → Problem → List Problem
blocked true p = p ∷ []
blocked false p = []

-- `validate_slice_ready`
unfoldable pub validate_slice_ready :
    TaskSlice → PlanDag → ExecutionContext → Result Error (List Problem)
unfolding elem is_node_ready blocked unknown
validate_slice_ready s dag context =
    if elem s.node_id (ids_of dag.nodes)
    then (do
      ready ← is_node_ready s.node_id dag context
      ok (
          blocked (elem s.node_id context.completed_node_ids) (already_completed s.node_id)
          ++ blocked (elem s.node_id context.failed_node_ids) (failed_node_blocked s.node_id)
          ++ (if ready
              then []
              else unknown (dependency_not_ready s.node_id) context.completed_node_ids
                  s.depends_on)))
    else ok (unknown_slice_node s.node_id ∷ [])

-- `{s.node_id: s for s in slices}`, looked up: the last slice of a node is its value.
unfoldable pub slice_of : List TaskSlice → String → Option TaskSlice
slice_of [] id = none
slice_of (s ∷ ss) id = elim (slice_of ss id) [
  | some t ↦ some t
  | none ↦ if str_eq s.node_id id then some s else none
]

abbrev pub add_slice : Option TaskSlice → List TaskSlice → List TaskSlice
add_slice none ss = ss
add_slice (some s) ss = s ∷ ss

-- The loop over the nodes in order.
unfoldable pub slices_in :
    List TaskSlice → ExecutionContext → List String → List PlanNode → List TaskSlice
unfolding elem slice_of
slices_in slices context ready [] = []
slices_in slices context ready (n ∷ ns) =
    let rest = slices_in slices context ready ns in
    if elem n.node_id context.completed_node_ids || elem n.node_id context.failed_node_ids
    then rest
    else if elem n.node_id ready
    then add_slice (slice_of slices n.node_id) rest
    else rest

unfoldable pub next_ready_slices :
    PlanDag → List TaskSlice → ExecutionContext → Result Error (List TaskSlice)
unfolding ready_node_ids slices_in stable_topological_sort
next_ready_slices dag slices context = do
  ready ← ready_node_ids dag context.completed_node_ids
  ordered ← stable_topological_sort dag
  ok (slices_in slices context ready ordered)
