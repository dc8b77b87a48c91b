-- ===== src/Execution/Graph/Construct.antt =====
-- `setupRetry`, and the two constructors of a graph.
use light_soar.Prelude.{
  ℕ, zero, suc, ◌==◌, Bool, true, false, ◌||◌, List, [], ◌∷◌, ◌++◌, map, if◌then◌else◌, length,
  GoMap, empty, put,
}
use light_soar.Digraph.Step.{Step}
use light_soar.Execution.Status.{is_error, is_cancel}
use light_soar.Execution.Data.{Node, clear_state, new_node, zero_state}
use light_soar.Execution.Graph.Defs.{
  ExecutionGraph, Result, ok, ◌>>=◌, MapOrder, empty_graph, depends, status, add_nodes, setup,
}

-- What the loops of `setupRetry` change: the nodes and the map `retry`. The map `dict` of the
-- statuses is read only at nodes and keeps the statuses from before.
pub record Retrying : Type 0 where
  pub dict : GoMap Node
  pub retry : GoMap Bool

abbrev pub cleared : Node → Node
unfolding clear_state
cleared n = record n { node_data = clear_state n.node_data }

abbrev pub is_failed : ExecutionGraph → ℕ → Bool
is_failed g v = is_error (status g v) || is_cancel (status g v)

module _ (g : ExecutionGraph) where
  -- `retry[node.id] = false` for every node
  unfoldable pub no_retry : List ℕ → GoMap Bool → GoMap Bool
  no_retry [] retry = retry
  no_retry (v ∷ vs) retry = no_retry vs (put retry v false)

  unfoldable pub roots : List ℕ → List ℕ
  roots [] = []
  roots (v ∷ vs) = if length (depends g v) == 0 then v ∷ roots vs else roots vs

  -- The first half of the loop's body: the test, and the reset of node `u`.
  unfoldable pub visit : ℕ → Retrying → Retrying
  visit u s =
      if s.retry.at u || is_failed g u
      then record { dict = put s.dict u (cleared (s.dict.at u)); retry = put s.retry u true }
      else s

  -- The loop over the successors of `u`.
  unfoldable pub pass_on : ℕ → List ℕ → GoMap Bool → GoMap Bool
  pass_on u [] retry = retry
  pass_on u (v ∷ vs) retry = pass_on u vs (if retry.at u then put retry v true else retry)

  -- The loop over the frontier, with the frontier `next` that it collects.
  unfoldable pub sweep : List ℕ → List ℕ → Retrying → List ℕ × Retrying
  unfolding visit pass_on
  sweep [] next s = (next, s)
  sweep (u ∷ us) next s =
      let s' = visit u s in
      sweep us (next ++ g.from.at u) (record s' { retry = pass_on u (g.from.at u) s'.retry })

  -- The outer loop, on fuel; it returns what is left of the frontier too.
  unfoldable pub sweeps : ℕ → List ℕ → Retrying → List ℕ × Retrying
  unfolding sweep
  sweeps zero frontier s = (frontier, s)
  sweeps (suc fuel) [] s = ([], s)
  sweeps (suc fuel) (u ∷ us) s = let (next, s') = sweep (u ∷ us) [] s in sweeps fuel next s'

  unfoldable pub swept : List ℕ × Retrying
  unfolding sweeps no_retry roots
  swept =
      sweeps (length g.nodes) (roots g.nodes)
        (record { dict = g.dict; retry = no_retry g.nodes (empty false) })

  -- `setupRetry`
  unfoldable pub setup_retry : ExecutionGraph
  unfolding swept
  setup_retry = record g { dict = swept.1.dict }

-- `NewExecutionGraph`, with the new value of the counter of node numbers.
unfoldable pub new_execution_graph : MapOrder → List Step → ℕ → Result ExecutionGraph × ℕ
unfolding add_nodes setup new_node
new_execution_graph order steps next =
    let (g, next') = add_nodes (map (λ s. new_node s zero_state) steps) next empty_graph in
    (setup order g, next')

-- `CreateRetryExecutionGraph`
unfoldable pub create_retry_execution_graph : MapOrder → List Node → ℕ → Result ExecutionGraph × ℕ
unfolding add_nodes setup setup_retry
create_retry_execution_graph order nodes next =
    let (g, next') = add_nodes nodes next empty_graph in
    (setup order g >>= λ g'. ok (setup_retry g'), next')
