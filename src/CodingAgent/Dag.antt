-- ===== src/CodingAgent/Dag.antt =====
-- model-packs/coding-agent/domain-lib/dag_validator.py over the plan of tier_contracts.py. The
-- dictionaries `indeg` and `adj` are functions of the node id; the loops that fill them are in closed form.
pub mod Spec
pub mod Release
pub mod Loop
pub mod Sorted
pub mod Ready
mod Examples
use lumina_framework.Base.{
  ℕ, ◌-◌, zero, suc, String, Bool, true, false, not, ◌&&◌, ◌||◌, Option, none, some, List, [], ◌∷◌,
  ◌++◌, map, Result, ok, err, ◌>>=◌, str_eq, if◌then◌else◌, ◌==◌, length, elem,
}
use lumina_framework.Base.Order.{text_leb}
use lumina_framework.Base.Sorting.{sort}

pub record PlanNode : Type 0 where
  pub node_id : String
  pub description : String
  pub depends_on : List String
  pub tier_hint : ℕ
  pub action_type : String
  pub parent_node_id : String

pub record PlanDag : Type 0 where
  pub nodes : List PlanNode
  pub created_at : String

pub data Error : Type 0 where
  cycle_detected : Error

-- The list without an id.
unfoldable pub without : String → List String → List String
without id [] = []
without id (x ∷ xs) = let rest = without id xs in if str_eq x id then rest else x ∷ rest

-- The keys of `{n.node_id: n for n in dag.nodes}`: a key keeps its first place.
unfoldable pub node_ids : List PlanNode → List String
unfolding without
node_ids [] = []
node_ids (n ∷ ns) = n.node_id ∷ without n.node_id (node_ids ns)

-- `nodes[node_id]`: the last node of an id is its value.
unfoldable pub node_of : List PlanNode → String → Option PlanNode
node_of [] id = none
node_of (n ∷ ns) id = elim (node_of ns id) [
  | some m ↦ some m
  | none ↦ if str_eq n.node_id id then some n else none
]

abbrev pub Edge : Type 0
Edge = String × String

-- The edges of a node, from each dependency that is a node.
unfoldable pub edges_to : List String → String → List String → List Edge
unfolding elem
edges_to ids child [] = []
edges_to ids child (dep ∷ deps) =
    let rest = edges_to ids child deps in if elem dep ids then (dep, child) ∷ rest else rest

unfoldable pub edges_of : List String → List PlanNode → List Edge
unfolding edges_to
edges_of ids [] = []
edges_of ids (n ∷ ns) = edges_to ids n.node_id n.depends_on ++ edges_of ids ns

-- `indeg` after the loop: one for each edge to the node.
unfoldable pub indegree : List Edge → String → ℕ
indegree [] id = 0
indegree ((dep, child) ∷ es) id =
    let rest = indegree es id in if str_eq child id then suc rest else rest

-- `adj[id]` after the loop.
unfoldable pub children : List Edge → String → List String
children [] id = []
children ((dep, child) ∷ es) id =
    let rest = children es id in if str_eq dep id then child ∷ rest else rest

-- `indeg[k] = v`
abbrev pub set : (String → ℕ) → String → ℕ → String → ℕ
set f k v id = if str_eq k id then v else f id

pub record Run : Type 0 where
  pub indeg : String → ℕ
  pub ready : List String
  pub ordered : List String

-- The loop over the children: a degree that was 1 is 0 after the decrement.
unfoldable pub release : List String → Run → Run
release [] s = s
release (child ∷ cs) s = release cs (record s {
  indeg = set s.indeg child (s.indeg child - 1);
  ready = if s.indeg child == 1 then s.ready ++ child ∷ [] else s.ready;
})

-- One round of `while ready`, after `cur` left the head of the queue.
unfoldable pub visit : List Edge → Run → String → List String → Run
unfolding release children sort text_leb
visit es s cur rest =
    let t =
      release (sort text_leb (children es cur))
        (record s { ready = rest; ordered = s.ordered ++ cur ∷ [] }) in
    record t { ready = sort text_leb t.ready }

pub data Outcome : Type 0 where
  done : Run → Outcome
  out_of_fuel : Outcome

unfoldable pub loop : List Edge → ℕ → Run → Outcome
unfolding visit
loop es zero s = elim s.ready [ [] ↦ done s | _ ∷ _ ↦ out_of_fuel ]
loop es (suc fuel) s = elim s.ready [
  | [] ↦ done s
  | cur ∷ rest ↦ loop es fuel (visit es s cur rest)
]

-- `[id for id in ids if indeg[id] == 0]`
unfoldable pub roots : List Edge → List String → List String
unfolding indegree
roots es [] = []
roots es (id ∷ ids) = let rest = roots es ids in if indegree es id == 0 then id ∷ rest else rest

unfoldable pub start : List Edge → List String → Run
unfolding roots indegree sort text_leb
start es ids = record { indeg = indegree es; ready = sort text_leb (roots es ids); ordered = [] }

unfoldable pub finish : List String → Outcome → Result Error (List String)
finish ids out_of_fuel = err cycle_detected
finish ids (done s) = if length s.ordered == length ids then ok s.ordered else err cycle_detected

-- The ids of `stable_topological_sort`, with one round for each id.
unfoldable pub sorted_ids : List PlanNode → Result Error (List String)
unfolding node_ids edges_of start loop finish
sorted_ids nodes =
    let ids = node_ids nodes in
    let es = edges_of ids nodes in finish ids (loop es (length ids) (start es ids))

abbrev pub add_node : Option PlanNode → List PlanNode → List PlanNode
add_node none ns = ns
add_node (some n) ns = n ∷ ns

-- `[nodes[id] for id in ids]`
unfoldable pub nodes_of : List PlanNode → List String → List PlanNode
unfolding node_of
nodes_of nodes [] = []
nodes_of nodes (id ∷ ids) = add_node (node_of nodes id) (nodes_of nodes ids)

unfoldable pub stable_topological_sort : PlanDag → Result Error (List PlanNode)
unfolding sorted_ids nodes_of
stable_topological_sort dag = do ids ← sorted_ids dag.nodes; ok (nodes_of dag.nodes ids)
