-- ===== src/Agent/Defs.antt =====
-- The agent of internal/agent/agent.go: its status, its scheduler, its graph, the requests that it
-- answers and the signals that it sends. The clock, the formats of times and the texts of errors are
-- arguments.
use light_soar.Prelude.{
  ℕ, ℤ, Bool, true, false, ◌&&◌, ◌||◌, Option, none, some, List, [], ◌∷◌, map, Text, ascii, text_eq,
  if◌then◌else◌,
}
use light_soar.Digraph.Step.{Step, Condition}
use light_soar.Digraph.Dag.{Dag}
use light_soar.Digraph.Conditions.{Evaluation, Verdict, eval_conditions}
use light_soar.Execution.Status.{Status, Err}
use light_soar.Execution.Data.{NodeData}
use light_soar.Execution.Graph.Defs.{ExecutionGraph, MapOrder, Result}
use light_soar.Execution.Graph.Construct.{new_execution_graph, create_retry_execution_graph}
use light_soar.Execution.Schedule.Defs.{
  RunState, HandlerType, on_success, on_failure, on_cancel, on_exit, run_status,
}
use light_soar.Persistence.Record.Defs.{
  TimeFormat, RunRecord, create, with_nodes, with_finished_at, with_on_exit_node,
  with_on_success_node, with_on_failure_node, with_on_cancel_node, with_log_file_path, to_node,
}
use light_soar.Client.Status.{Reply, get_current_status}

-- `Agent`, with what `New` sets.
pub record Agent : Type 0 where
  pub dag : Dag
  pub dry : Bool
  pub retry_target : Option RunRecord
  pub request_id : Text
  pub log_dir : Text
  pub log_file : Text
  pub pid : ℤ

-- `scheduler.Config`
pub record SchedulerConfig : Type 0 where
  pub log_dir : Text
  pub max_active_runs : ℤ
  pub timeout : ℤ
  pub delay : ℤ
  pub dry : Bool
  pub on_exit : Option Step
  pub on_success : Option Step
  pub on_failure : Option Step
  pub on_cancel : Option Step
  pub req_id : Text

-- `newScheduler`
unfoldable pub new_scheduler : Agent → SchedulerConfig
new_scheduler a = record {
  log_dir = a.log_dir;
  max_active_runs = a.dag.max_active_runs;
  timeout = a.dag.timeout;
  delay = a.dag.delay;
  dry = a.dry;
  on_exit = a.dag.handler_on.exit;
  on_success = a.dag.handler_on.success;
  on_failure = a.dag.handler_on.failure;
  on_cancel = a.dag.handler_on.cancel;
  req_id = a.request_id;
}

-- What the agent reads of a run: the scheduler with the nodes of its handlers, and the graph.
pub record Snapshot : Type 0 where
  pub state : RunState
  pub graph : ExecutionGraph
  pub handler_node : HandlerType → Option NodeData

abbrev is_none : Status → Bool
is_none Status.none = true
is_none _ = false

abbrev data_of : ExecutionGraph → List NodeData
data_of g = map (λ i. (g.dict.at i).node_data) g.nodes

-- The status of the scheduler, as `Status` matches it to the graph.
unfoldable pub scheduler_status : Snapshot → Status
unfolding run_status
scheduler_status s =
    let status = run_status s.state s.graph.nodes s.graph.dict in
    if is_none status && s.state.started then Status.running else status

module _ (times : TimeFormat) (error_text : Err → Text) where
  -- `Status`
  unfoldable pub agent_status : Agent → Snapshot → RunRecord
  unfolding create scheduler_status
  agent_status a s =
      create times error_text a.dag a.request_id (scheduler_status s) a.pid s.graph.started_at (
        with_finished_at s.graph.finished_at
        ∷ with_nodes (data_of s.graph)
        ∷ with_log_file_path a.log_file
        ∷ with_on_exit_node (s.handler_node on_exit)
        ∷ with_on_success_node (s.handler_node on_success)
        ∷ with_on_failure_node (s.handler_node on_failure)
        ∷ with_on_cancel_node (s.handler_node on_cancel)
        ∷ [])

  abbrev pub graph_for : MapOrder → Agent → Option RunRecord → ℕ → Result ExecutionGraph × ℕ
  unfolding new_execution_graph create_retry_execution_graph to_node
  graph_for order a none next = new_execution_graph order a.dag.steps next
  graph_for order a (some r) next =
      create_retry_execution_graph order (map (to_node times) r.nodes) next

  -- `setupGraph`, with `setupGraphForRetry`
  unfoldable pub setup_graph : MapOrder → Agent → ℕ → Result ExecutionGraph × ℕ
  unfolding graph_for
  setup_graph order a next = graph_for order a a.retry_target next

pub data Method : Type 0 where
  get post other : Method

-- How a request is answered. A stop is answered first; the signal is sent behind it.
pub data Response : Type 0 where
  status_json : RunRecord → Response
  stops not_found : Response

abbrev is_get : Method → Bool
is_get get = true
is_get _ = false

abbrev is_post : Method → Bool
is_post post = true
is_post _ = false

-- `HandleHTTP`, for an agent with this status. `statusRe` and `stopRe` allow a slash at the end.
unfoldable pub handle_http : RunRecord → Method → Text → Response
unfolding text_eq
handle_http status method path =
    if is_get method && (text_eq path (ascii "/status") || text_eq path (ascii "/status/"))
    then status_json (record status { status = Status.running })
    else if is_post method && (text_eq path (ascii "/stop") || text_eq path (ascii "/stop/"))
    then stops
    else not_found

-- What the loop of `signal` sees: all processes have ended, the time is out, the ticker, or nothing.
pub data Wait : Type 0 where
  all_ended timed_out ticked waits : Wait

-- What is sent to the processes: the signal, with the signals of the steps or without, or a kill.
pub data Sent : Type 0 where
  sends : (sig : ℕ) → (allow_override : Bool) → Sent
  kills : Sent

unfoldable pub signal_loop : ℕ → List Wait → List Sent
signal_loop sig [] = []
signal_loop sig (all_ended ∷ es) = []
signal_loop sig (timed_out ∷ es) = kills ∷ []
signal_loop sig (ticked ∷ es) = sends sig false ∷ signal_loop sig es
signal_loop sig (waits ∷ es) = signal_loop sig es

-- `signal`
unfoldable pub signal_agent : ℕ → Bool → List Wait → List Sent
unfolding signal_loop
signal_agent sig allow_override es = sends sig allow_override ∷ signal_loop sig es

-- What `checkIsAlreadyRunning` gives.
pub data AlreadyRunning : Type 0 where
  may_run no_status : AlreadyRunning
  is_running : Status → AlreadyRunning

abbrev pub running_status : Option RunRecord → AlreadyRunning
running_status none = no_status
running_status (some r) = if is_none r.status then may_run else is_running r.status

-- `checkIsAlreadyRunning`
unfoldable pub check_is_already_running :
    TimeFormat → (Text → Option RunRecord) → Agent → Reply → AlreadyRunning
unfolding get_current_status
check_is_already_running times from_json a answer =
    running_status (get_current_status times from_json a.dag answer)

-- `checkPreconditions`
unfoldable pub check_preconditions : Evaluation → List Condition → Verdict
unfolding eval_conditions
check_preconditions e [] = Verdict.met
check_preconditions e (c ∷ cs) = eval_conditions e (c ∷ cs)
