-- ===== src/Execution/Graph/Samples.antt =====
-- Small graphs, what the program does on them, and the theorems at them.
use light_soar.Prelude.{
  ℕ, ◌+◌, true, List, [], ◌∷◌, map, length, Text, ascii, ◌≡◌, refl, ◌↔◌, ◌⊎◌, arith, text_eq,
}
use light_soar.Digraph.Step.{Step, zero_step}
use light_soar.Execution.Status.{Err, NodeStatus, cycle_detected, step_not_found}
use light_soar.Execution.Data.{NodeState, Node, new_node, zero_state, clear_state}
use light_soar.Execution.Graph.Defs.{
  ExecutionGraph, Result, ok, err, MapOrder, empty_graph, add_nodes, setup, has_cycle, status,
}
use light_soar.Execution.Graph.Linked.{Walk}
use light_soar.Execution.Graph.Construct.{
  setup_retry, new_execution_graph, create_retry_execution_graph, swept, cleared,
}
use light_soar.Execution.Graph.Links.{LinkedAll, IsMapOrder, IsFresh}
use light_soar.Execution.Graph.Cycles.{has_cycle_correct}
use light_soar.Execution.Graph.Setup.{IsSetUp, DanglingNode, setup_accepts, setup_rejects}
use light_soar.Execution.Graph.Ranks.{IsComplete, IsSetUp-IsComplete, start, onward}
use light_soar.Execution.Graph.Retry.{IsTainted, setup_retry_resets, swept_ends}
use light_soar.Execution.Graph.Build.{data_of, new_execution_graph-IsComplete}

-- `range` that gives the keys in the order in which they were put.
abbrev pub in_order : MapOrder
in_order v deps keys = keys

pub in_order-IsMapOrder : IsMapOrder in_order
in_order-IsMapOrder v deps keys a = refl

abbrev step : Text → List Text → Step
step name deps = record zero_step { name = name; depends = deps }

abbrev pub sample_steps : List Step
sample_steps =
    step (ascii "c") (ascii "a" ∷ ascii "b" ∷ [])
    ∷ step (ascii "b") (ascii "a" ∷ [])
    ∷ step (ascii "a") []
    ∷ step (ascii "d") []
    ∷ []

abbrev pub graph_of : Result ExecutionGraph → ExecutionGraph
graph_of (ok g) = g
graph_of (err e) = empty_graph

abbrev pub built : ExecutionGraph
unfolding new_execution_graph
built = graph_of (new_execution_graph in_order sample_steps 1).0

program : Unit {0}
unfolding new_execution_graph create_retry_execution_graph text_eq clear_state
program = tt

pub built_ok : (new_execution_graph in_order sample_steps 1).0 ≡ ok built
unfolding program
built_ok = refl

built_edges :
    (built.to.at 1 ≡ 3 ∷ 2 ∷ [])
    × (built.from.at 3 ≡ 1 ∷ 2 ∷ [])
    × (built.nodes ≡ 1 ∷ 2 ∷ 3 ∷ 4 ∷ [])
unfolding program
built_edges = (refl, refl, refl)

dangling :
    (new_execution_graph in_order (step (ascii "a") (ascii "x" ∷ []) ∷ []) 1).0
    ≡ err (step_not_found (ascii "x"))
unfolding program
dangling = refl

abbrev loop_steps : List Step
loop_steps = step (ascii "a") (ascii "b" ∷ []) ∷ step (ascii "b") (ascii "a" ∷ []) ∷ []

loop_rejected : (new_execution_graph in_order loop_steps 1).0 ≡ err cycle_detected
unfolding program
loop_rejected = refl

new_execution_graph-IsComplete_example :
    ((new_execution_graph in_order sample_steps 1).1 ≡ 1 + length sample_steps)
    × ((g : ExecutionGraph)
        → (new_execution_graph in_order sample_steps 1).0 ≡ ok g
        → IsComplete g
          × (data_of g ≡ map (λ s. record { step = s; state = zero_state }) sample_steps))
new_execution_graph-IsComplete_example =
    new_execution_graph-IsComplete in_order in_order-IsMapOrder sample_steps 1 (omega arith)

pub built-IsComplete : IsComplete built
built-IsComplete = (new_execution_graph-IsComplete_example.1 built built_ok).0

has_cycle_correct_example : (has_cycle built ≡ true) ↔ ((w : ℕ) × Walk built w w)
has_cycle_correct_example = has_cycle_correct built built-IsComplete.linked

swept_ends_example : (swept built).0 ≡ []
swept_ends_example = swept_ends built built-IsComplete

abbrev added : ExecutionGraph
unfolding add_nodes
added = (add_nodes (map (λ s. new_node s zero_state) sample_steps) 1 empty_graph).0

added-IsFresh : IsFresh added
unfolding program
added-IsFresh = record {
  distinct = λ v. ground arith;
  keys = λ v. refl;
  no_from = λ v. refl;
  no_to = λ v. refl;
}

setup-added : setup in_order added ≡ ok built
unfolding program
setup-added = refl

setup_accepts_example : IsSetUp added built
setup_accepts_example =
    setup_accepts in_order in_order-IsMapOrder added added-IsFresh built setup-added

-- The nodes of a run in which `a` succeeded, `b` failed and `c` was canceled; `d` succeeded.
abbrev ended : NodeStatus → NodeState
ended s = record zero_state { status = s; done_count = 1 }

abbrev run_nodes : List Node
unfolding new_node
run_nodes =
    new_node (step (ascii "c") (ascii "b" ∷ [])) (ended NodeStatus.skipped)
    ∷ new_node (step (ascii "b") (ascii "a" ∷ [])) (ended NodeStatus.error)
    ∷ new_node (step (ascii "a") []) (ended NodeStatus.success)
    ∷ []

abbrev retried : ExecutionGraph
unfolding create_retry_execution_graph
retried = graph_of (create_retry_execution_graph in_order run_nodes 1).0

retried_ok : (create_retry_execution_graph in_order run_nodes 1).0 ≡ ok retried
unfolding program
retried_ok = refl

retried_states :
    (status retried 1 ≡ NodeStatus.none)
    × (status retried 2 ≡ NodeStatus.none)
    × (status retried 3 ≡ NodeStatus.success)
unfolding program
retried_states = (refl, refl, refl)

abbrev run_added : ExecutionGraph
unfolding add_nodes new_node
run_added = (add_nodes run_nodes 1 empty_graph).0

abbrev run_graph : ExecutionGraph
unfolding setup add_nodes new_node
run_graph = graph_of (setup in_order run_added)

run_graph-IsSetUp : IsSetUp run_added run_graph
unfolding program
run_graph-IsSetUp =
    setup_accepts in_order in_order-IsMapOrder run_added
      (record {
        distinct = λ v. ground arith;
        keys = λ v. refl;
        no_from = λ v. refl;
        no_to = λ v. refl;
      })
      run_graph refl

setup_retry_resets_example :
    (IsTainted run_graph 1 → (setup_retry run_graph).dict.at 1 ≡ cleared (run_graph.dict.at 1))
    × (¬ IsTainted run_graph 1 → (setup_retry run_graph).dict.at 1 ≡ run_graph.dict.at 1)
unfolding program
setup_retry_resets_example =
    setup_retry_resets run_graph (IsSetUp-IsComplete run_graph-IsSetUp) 1 (omega arith)

-- Step `c` was skipped, and is reset since `b`, on which it depends, had failed.
run_graph-IsTainted : IsTainted run_graph 1
unfolding program
run_graph-IsTainted = (2, refl, onward (omega arith) start)

abbrev loop_added : ExecutionGraph
unfolding add_nodes
loop_added = (add_nodes (map (λ s. new_node s zero_state) loop_steps) 1 empty_graph).0

setup_rejects_example :
    DanglingNode loop_added loop_added.nodes cycle_detected
    ⊎ ◌≡◌ {A = Err} cycle_detected cycle_detected
      × (g' : ExecutionGraph) × LinkedAll loop_added.nodes loop_added g'
      × ((w : ℕ) × Walk g' w w)
unfolding program
setup_rejects_example =
    setup_rejects in_order in_order-IsMapOrder loop_added
      (record {
        distinct = λ v. ground arith;
        keys = λ v. refl;
        no_from = λ v. refl;
        no_to = λ v. refl;
      })
      cycle_detected refl
