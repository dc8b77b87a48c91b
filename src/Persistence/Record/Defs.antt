-- ===== src/Persistence/Record/Defs.antt =====
-- internal/persistence/model: node.go and status.go, with the formats of times of
-- internal/stringutil/stringutil.go. A time is its nanoseconds, with 0 for the zero time. The texts
-- of errors, and the formats and the parsers of the library, are parameters.
use light_soar.Prelude.{
  ℕ, ◌==◌, ℤ, negsuc, int_eq, Bool, not, Option, none, some, List, [], ◌∷◌, ◌++◌, map,
  if◌then◌else◌, Text, ascii, text_eq,
}
use light_soar.Command.Defs.{join}
use light_soar.Digraph.Step.{Step}
use light_soar.Digraph.Dag.{Dag}
use light_soar.Execution.Status.{NodeStatus, Status, Err, node_status_text, status_text}
use light_soar.Execution.Data.{NodeData, Node, zero_state, new_node}

-- `Node`
pub record NodeRecord : Type 0 where
  pub step : Step
  pub log : Text
  pub started_at : Text
  pub finished_at : Text
  pub status : NodeStatus
  pub retried_at : Text
  pub retry_count : ℕ
  pub done_count : ℕ
  pub error : Text
  pub status_text : Text

-- `Status`
pub record RunRecord : Type 0 where
  pub request_id : Text
  pub name : Text
  pub status : Status
  pub status_text : Text
  pub pid : ℤ
  pub nodes : List NodeRecord
  pub on_exit : Option NodeRecord
  pub on_success : Option NodeRecord
  pub on_failure : Option NodeRecord
  pub on_cancel : Option NodeRecord
  pub started_at : Text
  pub finished_at : Text
  pub log : Text
  pub params : Text
  pub params_list : List Text

abbrev pub pid_not_running : ℤ
pid_not_running = negsuc 0

-- `PID.IsRunning`
unfoldable pub pid_is_running : ℤ → Bool
pid_is_running p = not (int_eq p pid_not_running)

-- `NewNode`
unfoldable pub new_record : Step → NodeRecord
unfolding node_status_text
new_record s = record {
  step = s;
  log = [];
  started_at = ascii "-";
  finished_at = ascii "-";
  status = NodeStatus.none;
  retried_at = [];
  retry_count = 0;
  done_count = 0;
  error = [];
  status_text = node_status_text NodeStatus.none;
}

-- `FromSteps`
unfoldable pub from_steps : List Step → List NodeRecord
unfolding new_record
from_steps steps = map new_record steps

-- `nodeOrNil`
unfoldable pub node_or_nil : Option Step → Option NodeRecord
unfolding new_record
node_or_nil none = none
node_or_nil (some s) = some (new_record s)

abbrev pub is_running : Status → Bool
is_running Status.running = Bool.true
is_running _ = Bool.false

-- `CorrectRunningStatus`
unfoldable pub correct_running_status : RunRecord → RunRecord
unfolding status_text
correct_running_status r =
    if is_running r.status
    then record r { status = Status.error; status_text = status_text Status.error }
    else r

-- `errFromText`
unfoldable pub err_from_text : Text → Option Err
unfolding text_eq
err_from_text t =
    if text_eq t [] then none else some (Err.other (ascii "node processing error: " ++ t))

-- `Time.Format` for RFC 3339, and `time.ParseInLocation` for that format and for the old one.
pub record TimeFormat : Type 0 where
  pub rfc3339 : ℕ → Text
  pub parse_rfc3339 : Text → Option ℕ
  pub parse_legacy : Text → Option ℕ

abbrev or_else : Option ℕ → Option ℕ → Option ℕ
or_else none o = o
or_else (some t) o = some t

-- The time where the error of `ParseTime` is dropped.
abbrev pub or_zero : Option ℕ → ℕ
or_zero none = 0
or_zero (some t) = t

-- `errText`
unfoldable pub err_text : (Err → Text) → Option Err → Text
err_text error_text none = []
err_text error_text (some e) = error_text e

module _ (times : TimeFormat) where
  -- `stringutil.FormatTime`
  unfoldable pub format_time : ℕ → Text
  format_time t = if t == 0 then ascii "-" else times.rfc3339 t

  -- `FormatTime`
  unfoldable pub format_time_or_empty : ℕ → Text
  unfolding format_time
  format_time_or_empty t = if t == 0 then [] else format_time t

  -- `ParseTime`
  unfoldable pub parse_time : Text → Option ℕ
  unfolding text_eq
  parse_time v =
      if text_eq v (ascii "-")
      then some 0
      else or_else (times.parse_rfc3339 v) (times.parse_legacy v)

  -- `ToNode`
  unfoldable pub to_node : NodeRecord → Node
  unfolding parse_time err_from_text new_node
  to_node n = new_node n.step (record zero_state {
    status = n.status;
    log = n.log;
    started_at = or_zero (parse_time n.started_at);
    finished_at = or_zero (parse_time n.finished_at);
    retried_at = or_zero (parse_time n.retried_at);
    retry_count = n.retry_count;
    done_count = n.done_count;
    error = err_from_text n.error;
  })

  -- `CreateDefault`
  unfoldable pub create_default : Dag → RunRecord
  unfolding status_text from_steps node_or_nil join format_time
  create_default d = record {
    request_id = [];
    name = d.name;
    status = Status.none;
    status_text = status_text Status.none;
    pid = pid_not_running;
    nodes = from_steps d.steps;
    on_exit = node_or_nil d.handler_on.exit;
    on_success = node_or_nil d.handler_on.success;
    on_failure = node_or_nil d.handler_on.failure;
    on_cancel = node_or_nil d.handler_on.cancel;
    started_at = format_time 0;
    finished_at = format_time 0;
    log = [];
    params = join (ascii " ") d.params;
    params_list = d.params;
  }

module _ (times : TimeFormat) (error_text : Err → Text) where
  -- `FromNode`
  unfoldable pub from_node : NodeData → NodeRecord
  unfolding format_time node_status_text err_text
  from_node d = record {
    step = d.step;
    log = d.state.log;
    started_at = format_time times d.state.started_at;
    finished_at = format_time times d.state.finished_at;
    status = d.state.status;
    retried_at = format_time times d.state.retried_at;
    retry_count = d.state.retry_count;
    done_count = d.state.done_count;
    error = err_text error_text d.state.error;
    status_text = node_status_text d.state.status;
  }

  -- `FromNodes`
  unfoldable pub from_nodes : List NodeData → List NodeRecord
  unfolding from_node
  from_nodes ds = map from_node ds

  abbrev node_record_or : Option NodeRecord → Option NodeData → Option NodeRecord
  unfolding from_node
  node_record_or default none = default
  node_record_or default (some d) = some (from_node d)

  -- The options of `Create`.
  pub data StatusOption : Type 0 where
    with_nodes : List NodeData → StatusOption
    with_finished_at : ℕ → StatusOption
    with_on_exit_node with_on_success_node with_on_failure_node with_on_cancel_node :
        Option NodeData → StatusOption
    with_log_file_path : Text → StatusOption

  unfoldable pub apply_option : StatusOption → RunRecord → RunRecord
  unfolding from_nodes format_time_or_empty from_node
  apply_option (with_nodes ds) r = record r { nodes = from_nodes ds }
  apply_option (with_finished_at t) r = record r { finished_at = format_time_or_empty times t }
  apply_option (with_on_exit_node n) r = record r { on_exit = node_record_or r.on_exit n }
  apply_option (with_on_success_node n) r = record r { on_success = node_record_or r.on_success n }
  apply_option (with_on_failure_node n) r = record r { on_failure = node_record_or r.on_failure n }
  apply_option (with_on_cancel_node n) r = record r { on_cancel = node_record_or r.on_cancel n }
  apply_option (with_log_file_path path) r = record r { log = path }

  unfoldable pub apply_options : List StatusOption → RunRecord → RunRecord
  unfolding apply_option
  apply_options [] r = r
  apply_options (o ∷ os) r = apply_options os (apply_option o r)

  -- `Create`
  unfoldable pub create :
      Dag
      → (request_id : Text) → Status
      → (pid : ℤ) → (started_at : ℕ) → List StatusOption
      → RunRecord
  unfolding create_default apply_options format_time_or_empty status_text
  create d request_id status pid started_at os = apply_options os (record (create_default times d) {
    request_id = request_id;
    status = status;
    status_text = status_text status;
    pid = pid;
    started_at = format_time_or_empty times started_at;
  })
