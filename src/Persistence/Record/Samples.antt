-- ===== src/Persistence/Record/Samples.antt =====
-- The nodes of a run that are recorded and read again.
use light_soar.Prelude.{
  pos, none, some, List, [], ◌∷◌, map, Text, ascii, text_eq, ◌≡◌, ◌≢◌, refl, arith,
}
use light_soar.Digraph.Step.{Step, zero_step}
use light_soar.Execution.Status.{Err, NodeStatus}
use light_soar.Execution.Data.{NodeData, new_node, zero_state}
use light_soar.Execution.Graph.Defs.{ExecutionGraph, ok}
use light_soar.Execution.Graph.Construct.{create_retry_execution_graph, setup_retry}
use light_soar.Execution.Graph.Build.{data_of}
use light_soar.Execution.Graph.Ranks.{IsComplete}
use light_soar.Execution.Graph.Samples.{in_order, in_order-IsMapOrder, graph_of}
use light_soar.Persistence.Record.Defs.{TimeFormat, from_nodes, to_node}
use light_soar.Persistence.Record.Reread.{KeepsSeconds, to_second, reread, retry_of_records}

-- A format that writes the number of a time's second.
abbrev pub seconds_format : TimeFormat
unfolding to_second
seconds_format = record {
  rfc3339 = λ t. b'T' ∷ to_second t ∷ [];
  parse_rfc3339 = λ v. elim v [ [] ↦ none | c ∷ rest ↦ elim rest [ [] ↦ none | t ∷ _ ↦ some t ] ];
  parse_legacy = λ v. none;
}

seconds_format-KeepsSeconds : KeepsSeconds seconds_format
unfolding seconds_format
seconds_format-KeepsSeconds = record { reads = λ t. refl; no_dash = λ t h. cc }

abbrev pub error_text : Err → Text
error_text e = ascii "failed"

error_text-ne : (e : Err) → error_text e ≢ []
error_text-ne e h = cc

abbrev step : Text → List Text → Step
step name deps = record zero_step { name = name; depends = deps }

-- The node `a` succeeded after 1.5 seconds, and `b` failed.
abbrev run_data : List NodeData
run_data =
    record {
      step = step (ascii "a") [];
      state = record zero_state {
        status = NodeStatus.success;
        finished_at = 1_500_000_000;
        done_count = 1;
      };
    }
    ∷ record {
      step = step (ascii "b") (ascii "a" ∷ []);
      state = record zero_state {
        status = NodeStatus.error;
        error = some (Err.other (ascii "exit status 1"));
        exit_code = pos 1;
      };
    }
    ∷ []

program : Unit {0}
unfolding create_retry_execution_graph from_nodes to_node text_eq to_second new_node
program = tt

abbrev retried : ExecutionGraph
unfolding create_retry_execution_graph
retried =
    graph_of
      (create_retry_execution_graph in_order
        (map (to_node seconds_format) (from_nodes seconds_format error_text run_data)) 1).0

retried_ok :
    (create_retry_execution_graph in_order
      (map (to_node seconds_format) (from_nodes seconds_format error_text run_data))
      1).0
    ≡ ok retried
unfolding program retried seconds_format
retried_ok = refl

retry_of_records_example :
    (g' : ExecutionGraph) × IsComplete g'
    × (data_of g' ≡ map (reread error_text) run_data)
    × (retried ≡ setup_retry g')
retry_of_records_example =
    retry_of_records seconds_format seconds_format-KeepsSeconds error_text error_text-ne in_order
      in_order-IsMapOrder run_data 1 retried (omega arith) retried_ok
