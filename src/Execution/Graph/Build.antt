-- ===== src/Execution/Graph/Build.antt =====
-- What the two constructors of a graph give.
use mathlib.Core.List.{map-append, append_assoc, append-nil}
use light_soar.Prelude.{
  ℕ, ◌+◌, ◌<◌, List, [], ◌∷◌, ◌++◌, map, length, count, GoMap, put, put_self, put_ne, ◌≡◌, refl,
  sym, ◌∙◌, ap, arith, count-append,
}
use light_soar.Digraph.Step.{Step}
use light_soar.Execution.Data.{Node, NodeData, new_node, zero_state}
use light_soar.Execution.Graph.Defs.{
  ExecutionGraph, ok, MapOrder, empty_graph, init, add_nodes, setup,
}
use light_soar.Execution.Graph.Links.{IsMapOrder, IsFresh, >>=-eq-ok, ok-injective}
use light_soar.Execution.Graph.Setup.{IsSetUp, setup_accepts}
use light_soar.Execution.Graph.Construct.{
  setup_retry, new_execution_graph, create_retry_execution_graph,
}
use light_soar.Execution.Graph.Ranks.{IsComplete, IsSetUp-IsComplete}

-- No node of the list has a number yet.
abbrev pub IsUnnumbered : List Node → Type 0
IsUnnumbered [] = Unit
IsUnnumbered (n ∷ ns) = (n.id ≡ 0) × IsUnnumbered ns

abbrev pub data_of : ExecutionGraph → List NodeData
data_of g = map (λ i. (g.dict.at i).node_data) g.nodes

-- The graph is fresh, and its numbers are below the counter.
record IsNumbered (next : ℕ) (g : ExecutionGraph) : Type 0 where
  fresh : IsFresh g
  below : (v : ℕ) → 0 < count v g.nodes → v < next

abbrev with_node : ExecutionGraph → ℕ → Node → ExecutionGraph
with_node g i n = record g { dict = put g.dict i n; nodes = g.nodes ++ i ∷ [] }

with_node-IsNumbered :
    (g : ExecutionGraph) (next : ℕ) (n : Node)
    → IsNumbered next g
    → IsNumbered (next + 1) (with_node g next n)
with_node-IsNumbered g next n h = record {
  fresh = record {
    distinct =
        λ v. ground (arith, count-append v g.nodes (next ∷ []), h.fresh.distinct v, h.below v);
    keys = λ v. ground (
      arith,
      count-append v g.nodes (next ∷ []),
      count-append v g.dict.keys (next ∷ []),
      h.fresh.keys v,
      h.fresh.keys next,
      h.below next,
    );
    no_from = h.fresh.no_from;
    no_to = h.fresh.no_to;
  };
  below = λ v m. ground (arith, count-append v g.nodes (next ∷ []), h.below v);
}

map-put_ne :
    (dict : GoMap Node) (k : ℕ) (n : Node) (vs : List ℕ)
    → count k vs ≡ 0
    → map (λ i. ((put dict k n).at i).node_data) vs ≡ map (λ i. (dict.at i).node_data) vs
map-put_ne dict k n [] h = refl
map-put_ne dict k n (v ∷ vs) h =
    let now = put_ne dict k v n (ground arith) in ground (arith, now, map-put_ne dict k n vs)

init_new : (n : Node) (next : ℕ) → n.id ≡ 0 → init n next ≡ (record n { id = next }, next + 1)
unfolding init
init_new n next h = ground arith

data_of-with_node :
    (g : ExecutionGraph) (next : ℕ) (n : Node)
    → IsNumbered next g
    → data_of (with_node g next n) ≡ data_of g ++ n.node_data ∷ []
data_of-with_node g next n h =
    let new : count next g.nodes ≡ 0 = ground (arith, h.below next) in
    let node_data_at = λ (i : ℕ). ((put g.dict next n).at i).node_data in
    map-append node_data_at g.nodes (next ∷ [])
    ∙ ground (arith, map-put_ne g.dict next n g.nodes new, put_self g.dict next next n refl)

record Added (ns : List Node) (next : ℕ) (g : ExecutionGraph) (r : ExecutionGraph × ℕ)
    : Type 0 where
  numbered : IsNumbered r.1 r.0
  counter : r.1 ≡ next + length ns
  data_added : data_of r.0 ≡ data_of g ++ map (λ n. n.node_data) ns

add_nodes-Added :
    (ns : List Node) (next : ℕ) (g : ExecutionGraph)
    → IsUnnumbered ns
    → 0 < next
    → IsNumbered next g
    → Added ns next g (add_nodes ns next g)
unfolding add_nodes
add_nodes-Added [] next g u h k = record {
  numbered = k;
  counter = omega arith;
  data_added = sym (append-nil (data_of g));
}
add_nodes-Added (n ∷ ns) next g (u, us) h k =
    let m = record n { id = next } in
    let same : init n next ≡ (m, next + 1) = init_new n next u in
    rw same (
      let r =
        add_nodes-Added ns (next + 1) (with_node g next m) us (omega arith)
          (with_node-IsNumbered g next m k) in
      record {
        numbered = r.numbered;
        counter = omega (arith, r.counter);
        data_added =
            r.data_added
            ∙ rw (data_of-with_node g next m k) (append_assoc (data_of g) (n.node_data ∷ []) _);
      })

empty_graph-IsNumbered : (next : ℕ) → IsNumbered next empty_graph
unfolding new_node
empty_graph-IsNumbered next = record {
  fresh = record {
    distinct = λ v. omega arith;
    keys = λ v. refl;
    no_from = λ v. refl;
    no_to = λ v. refl;
  };
  below = λ v m. absurd (omega arith);
}

-- The nodes of steps, and the data that they keep.
IsUnnumbered-new : (steps : List Step) → IsUnnumbered (map (λ s. new_node s zero_state) steps)
unfolding new_node
IsUnnumbered-new [] = tt
IsUnnumbered-new (s ∷ steps) = (refl, IsUnnumbered-new steps)

length_new : (steps : List Step) → length (map (λ s. new_node s zero_state) steps) ≡ length steps
length_new [] = refl
length_new (s ∷ steps) = omega (arith, length_new steps)

map_new :
    (steps : List Step)
    → map (λ (n : Node). n.node_data) (map (λ s. new_node s zero_state) steps)
      ≡ map (λ s. record { step = s; state = zero_state }) steps
unfolding new_node
map_new [] = refl
map_new (s ∷ steps) = ap (λ l. record { step = s; state = zero_state } ∷ l) (map_new steps)

data_of-IsSetUp : {g g' : ExecutionGraph} → IsSetUp g g' → data_of g' ≡ data_of g
data_of-IsSetUp h = λ i. map (λ j. ((h.same_dict i).at j).node_data) (h.same_nodes i)

-- `NewExecutionGraph`: the counter moves by one for each step, and a graph that is returned keeps
-- the steps in order, not yet run, with the edges that the steps' `Depends` ask for and no cycle.
pub new_execution_graph-IsComplete :
    (order : MapOrder) (fair : IsMapOrder order) (steps : List Step) (next : ℕ)
    → 0 < next
    → ((new_execution_graph order steps next).1 ≡ next + length steps)
      × ((g : ExecutionGraph)
          → (new_execution_graph order steps next).0 ≡ ok g
          → IsComplete g × (data_of g ≡ map (λ s. record { step = s; state = zero_state }) steps))
unfolding new_execution_graph
new_execution_graph-IsComplete order fair steps next h =
    let nodes = map (λ s. new_node s zero_state) steps in
    let r =
      add_nodes-Added nodes next empty_graph (IsUnnumbered-new steps) h
        (empty_graph-IsNumbered next) in
    (
      omega (arith, r.counter, length_new steps),
      λ g e.
          let built =
            setup_accepts order fair (add_nodes nodes next empty_graph).0 r.numbered.fresh g e in
          (IsSetUp-IsComplete built, data_of-IsSetUp built ∙ r.data_added ∙ map_new steps),
    )

-- `CreateRetryExecutionGraph` on nodes that have no number yet: a graph that is returned is what
-- `setupRetry` makes of a complete graph over the given nodes' data, in order.
pub create_retry_execution_graph-IsComplete :
    (order : MapOrder) (fair : IsMapOrder order) (nodes : List Node) (next : ℕ) (g : ExecutionGraph)
    → IsUnnumbered nodes
    → 0 < next
    → (create_retry_execution_graph order nodes next).0 ≡ ok g
    → (g' : ExecutionGraph) × IsComplete g'
      × (data_of g' ≡ map (λ n. n.node_data) nodes)
      × (g ≡ setup_retry g')
unfolding create_retry_execution_graph new_node
create_retry_execution_graph-IsComplete order fair nodes next g u h e =
    let r = add_nodes-Added nodes next empty_graph u h (empty_graph-IsNumbered next) in
    let added = (add_nodes nodes next empty_graph).0 in
    let (g', set_up, rest) = >>=-eq-ok (setup order added) (λ g'. ok (setup_retry g')) e in
    let built = setup_accepts order fair added r.numbered.fresh g' set_up in
    (g', IsSetUp-IsComplete built, data_of-IsSetUp built ∙ r.data_added, sym (ok-injective rest))
