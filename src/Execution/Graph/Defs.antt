-- ===== src/Execution/Graph/Defs.antt =====
-- The graph and its construction. A `*Node` is the node's number, and `dict` is the store of the
-- nodes, so that the graph's list of nodes and its `dict` share them as the program's pointers do.
-- `Init` numbers the nodes from one counter of the process, which is an argument.
use light_soar.Prelude.{
  ℕ, zero, suc, ◌+◌, ◌==◌, ℤ, pos, pred_int, is_zero_int, is_positive_int, Bool, List, [], ◌∷◌,
  ◌++◌, Text, text_eq, if◌then◌else◌, length, any, GoMap, empty, put,
}
use light_soar.Digraph.Step.{zero_step}
use light_soar.Execution.Status.{NodeStatus, Err, cycle_detected, step_not_found}
use light_soar.Execution.Data.{Node, zero_state, new_node}

pub data Result (A : Type 0) : Type 0 where
  ok : A → Result A
  err : Err → Result A

infixl 5 ◌>>=◌
abbrev pub ◌>>=◌ : {A B : Type 0} → Result A → (A → Result B) → Result B
ok a >>= f = f a
err e >>= f = err e

-- The times are 0 until they are set.
pub record ExecutionGraph : Type 0 where
  pub started_at : ℕ
  pub finished_at : ℕ
  pub dict : GoMap Node
  pub nodes : List ℕ
  pub from : GoMap (List ℕ)
  pub to : GoMap (List ℕ)

abbrev pub name : ExecutionGraph → ℕ → Text
name g i = (g.dict.at i).node_data.step.name

abbrev pub depends : ExecutionGraph → ℕ → List Text
depends g i = (g.dict.at i).node_data.step.depends

abbrev pub status : ExecutionGraph → ℕ → NodeStatus
status g i = (g.dict.at i).node_data.state.status

-- `dict` is read only at numbers of nodes, so this value is never read.
abbrev nil_node : Node
unfolding new_node
nil_node = new_node zero_step zero_state

abbrev pub empty_graph : ExecutionGraph
unfolding new_node
empty_graph = record {
  started_at = 0;
  finished_at = 0;
  dict = empty nil_node;
  nodes = [];
  from = empty [];
  to = empty [];
}

-- `Init`: a node that has a number keeps it. The counter's new value is returned too.
unfoldable pub init : Node → ℕ → Node × ℕ
init n next = if n.id == 0 then (record n { id = next }, next + 1) else (n, next)

-- The loop over the steps or nodes that both constructors run.
unfoldable pub add_nodes : List Node → ℕ → ExecutionGraph → ExecutionGraph × ℕ
unfolding init
add_nodes [] next g = (g, next)
add_nodes (n ∷ ns) next g =
    let (n', next') = init n next in
    add_nodes ns next' (record g { dict = put g.dict n'.id n'; nodes = g.nodes ++ n'.id ∷ [] })

-- `addEdge`
unfoldable pub add_edge : ExecutionGraph → ℕ → ℕ → ExecutionGraph
add_edge g u v = record g {
  from = put g.from u (g.from.at u ++ v ∷ []);
  to = put g.to v (g.to.at v ++ u ∷ []);
}

-- `findStep`, for the order in which this run of `range` gives the numbers of the nodes.
unfoldable pub find_step : ExecutionGraph → Text → List ℕ → Result ℕ
find_step g dep [] = err (step_not_found dep)
find_step g dep (i ∷ is) = if text_eq (name g i) dep then ok i else find_step g dep is

-- Go leaves the order of `range` over a map open, and it may differ from one run to the next. The
-- order of a run of `findStep` is a function of the node and the dependencies that are left, which
-- differ for any two of its runs.
abbrev pub MapOrder : Type 0
MapOrder = ℕ → List Text → List ℕ → List ℕ

module _ (order : MapOrder) where
  -- The inner loop of `setup`: the edges into node `v`.
  unfoldable pub link : ℕ → List Text → ExecutionGraph → Result ExecutionGraph
  unfolding find_step add_edge
  link v [] g = ok g
  link v (dep ∷ deps) g =
      find_step g dep (order v (dep ∷ deps) g.dict.keys) >>= λ u. link v deps (add_edge g u v)

  -- The outer loop of `setup`.
  unfoldable pub link_all : List ℕ → ExecutionGraph → Result ExecutionGraph
  unfolding link
  link_all [] g = ok g
  link_all (v ∷ vs) g = link v (depends g v) g >>= link_all vs

-- The loop that fills `inDegrees`.
unfoldable pub in_degrees : List ℕ → GoMap (List ℕ) → GoMap ℤ → GoMap ℤ
in_degrees [] to degrees = degrees
in_degrees (v ∷ vs) to degrees = in_degrees vs to (put degrees v (pos (length (to.at v))))

-- The loop that fills the queue.
unfoldable pub sources : List ℕ → GoMap ℤ → List ℕ
sources [] degrees = []
sources (v ∷ vs) degrees =
    if is_zero_int (degrees.at v) then v ∷ sources vs degrees else sources vs degrees

-- The loop over the successors of the node that left the queue.
unfoldable pub release : List ℕ → List ℕ → GoMap ℤ → List ℕ × GoMap ℤ
release [] q degrees = (q, degrees)
release (t ∷ ts) q degrees =
    let degrees' = put degrees t (pred_int (degrees.at t)) in
    release ts (if is_zero_int (degrees'.at t) then q ++ t ∷ [] else q) degrees'

-- The loop over the queue, on fuel; it returns what is left of the queue too.
unfoldable pub drain : ExecutionGraph → ℕ → List ℕ → GoMap ℤ → List ℕ × GoMap ℤ
unfolding release
drain g zero q degrees = (q, degrees)
drain g (suc fuel) [] degrees = ([], degrees)
drain g (suc fuel) (f ∷ q) degrees =
    let (q', degrees') = release (g.from.at f) q degrees in drain g fuel q' degrees'

unfoldable pub drained : ExecutionGraph → List ℕ × GoMap ℤ
unfolding drain in_degrees sources
drained g =
    let degrees = in_degrees g.to.keys g.to (empty (pos 0)) in
    drain g (length g.nodes) (sources g.nodes degrees) degrees

-- `hasCycle`
unfoldable pub has_cycle : ExecutionGraph → Bool
unfolding drained
has_cycle g = let degrees = (drained g).1 in any (λ v. is_positive_int (degrees.at v)) degrees.keys

-- `setup`
unfoldable pub setup : MapOrder → ExecutionGraph → Result ExecutionGraph
unfolding link_all has_cycle
setup order g =
    link_all order g.nodes g >>= λ g'. if has_cycle g' then err cycle_detected else ok g'
