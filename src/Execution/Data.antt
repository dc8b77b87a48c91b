-- ===== src/Execution/Data.antt =====
-- internal/digraph/scheduler/data.go, and the struct and constructors of node.go. The mutexes
-- guard single reads and writes, so each method is a function on the data. A `time.Time` is its
-- nanoseconds, with 0 for the zero time; what `time.Now` gives is an argument.
use light_soar.Prelude.{
  ℕ, ◌+◌, ℤ, pos, int_eq, Bool, false, Option, none, some, List, [], Text, any,
}
use light_soar.Execution.Status.{NodeStatus, Err}
use light_soar.Digraph.Step.{Step}
use light_soar.Digraph.Variables.{SyncMap, store, load, delete, new_key_value, to_bool, format_bool}

pub record NodeState : Type 0 where
  pub status : NodeStatus
  pub log : Text
  pub started_at : ℕ
  pub finished_at : ℕ
  pub retry_count : ℕ
  pub retried_at : ℕ
  pub done_count : ℕ
  pub error : Option Err
  pub exit_code : ℤ

-- `NodeState{}`
abbrev pub zero_state : NodeState
zero_state = record {
  status = NodeStatus.none;
  log = [];
  started_at = 0;
  finished_at = 0;
  retry_count = 0;
  retried_at = 0;
  done_count = 0;
  error = none;
  exit_code = pos 0;
}

pub record NodeData : Type 0 where
  pub step : Step
  pub state : NodeState

-- `RetryPolicy` of node.go
pub record NodeRetryPolicy : Type 0 where
  pub limit : ℤ
  pub interval : ℤ

-- `Node`: `has_cmd` and `has_cancel` say that `cmd` and `cancelFunc` are not nil, and `log_file`
-- is the file name that `outputs` keeps.
pub record Node : Type 0 where
  pub id : ℕ
  pub node_data : NodeData
  pub log_file : Text
  pub done : Bool
  pub retry_policy : NodeRetryPolicy
  pub has_cmd : Bool
  pub has_cancel : Bool
  pub cmd_evaluated : Bool

-- `NodeWithData`; a fresh node's `id` is 0 until `Init`.
unfoldable pub node_with_data : NodeData → Node
node_with_data d = record {
  id = 0;
  node_data = d;
  log_file = [];
  done = false;
  retry_policy = record { limit = pos 0; interval = pos 0 };
  has_cmd = false;
  has_cancel = false;
  cmd_evaluated = false;
}

-- `NewNode`
unfoldable pub new_node : Step → NodeState → Node
unfolding node_with_data
new_node s st = node_with_data (record { step = s; state = st })

abbrev pub with_state : NodeData → NodeState → NodeData
with_state d st = record d { state = st }

unfoldable pub set_status : NodeStatus → NodeData → NodeData
set_status s d = with_state d (record d.state { status = s })

unfoldable pub set_error : Option Err → NodeData → NodeData
set_error e d = with_state d (record d.state { error = e })

unfoldable pub mark_error : Option Err → NodeData → NodeData
mark_error e d = with_state d (record d.state { error = e; status = NodeStatus.error })

unfoldable pub reset_error : NodeData → NodeData
reset_error d = with_state d (record d.state { error = none; exit_code = pos 0 })

unfoldable pub finish : ℕ → NodeData → NodeData
finish now d = with_state d (record d.state { finished_at = now })

unfoldable pub inc_retry_count : NodeData → NodeData
inc_retry_count d = with_state d (record d.state { retry_count = d.state.retry_count + 1 })

unfoldable pub set_retried_at : ℕ → NodeData → NodeData
set_retried_at now d = with_state d (record d.state { retried_at = now })

unfoldable pub inc_done_count : NodeData → NodeData
inc_done_count d = with_state d (record d.state { done_count = d.state.done_count + 1 })

unfoldable pub set_exit_code : ℤ → NodeData → NodeData
set_exit_code c d = with_state d (record d.state { exit_code = c })

unfoldable pub clear_state : NodeData → NodeData
clear_state d = with_state d zero_state

unfoldable pub match_exit_code : List ℤ → NodeData → Bool
match_exit_code codes d = any (λ c. int_eq c d.state.exit_code) codes

abbrev with_variables : NodeData → SyncMap → NodeData
with_variables d m = record d { step = record d.step { output_variables = some m } }

-- The variables of a step, none of them when the map is nil.
abbrev pub variables : NodeData → SyncMap
variables d = elim d.step.output_variables [ none ↦ [] | some m ↦ m ]

unfoldable pub clear_variable : Text → NodeData → NodeData
clear_variable k d = elim d.step.output_variables [
  | none ↦ d
  | some m ↦ with_variables d (delete m k)
]

unfoldable pub get_variable : Text → NodeData → Option Text
get_variable k d = load (variables d) k

abbrev bool_of : Option Text → Option Bool
bool_of none = none
bool_of (some kv) = some (to_bool kv)

-- `getBoolVariable`: the flag and `ok` as an option.
unfoldable pub get_bool_variable : Text → NodeData → Option Bool
unfolding get_variable
get_bool_variable k d = bool_of (get_variable k d)

unfoldable pub set_variable : Text → Text → NodeData → NodeData
set_variable k v d = with_variables d (store (variables d) k (new_key_value k v))

unfoldable pub set_bool_variable : Text → Bool → NodeData → NodeData
set_bool_variable k b d = with_variables d (store (variables d) k (new_key_value k (format_bool b)))
