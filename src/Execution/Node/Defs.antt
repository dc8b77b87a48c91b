-- ===== src/Execution/Node/Defs.antt =====
-- The methods of a node that change it. What the node asks of the outside (its log, the values of
-- its texts, its command) is an argument; `none` where an answer is an error.
use light_soar.Prelude.{
  ◌+◌, ◌==◌, ◌*◌, ℤ, pos, negsuc, is_positive_int, Bool, true, false, Option, none, some, List, [],
  ◌++◌, Text, ascii, text_eq, if◌then◌else◌, length,
}
use light_soar.Execution.Status.{NodeStatus, Err, other, is_running}
use light_soar.Execution.Data.{
  NodeData, Node, set_status, set_error, reset_error, set_exit_code, match_exit_code,
  clear_variable, get_bool_variable, set_variable, set_bool_variable,
}

-- `LogContainsPattern` on a log file: whether a pattern occurs, if the log could be read.
abbrev pub LogCheck : Type 0
LogCheck = Text → List Text → Option Bool

-- `cmdutil.EvalIntString`
abbrev pub EvalInt : Type 0
EvalInt = Text → Option ℤ

abbrev pub with_data : Node → NodeData → Node
with_data n d = record n { node_data = d }

abbrev pub cache_key : Node → Text
cache_key n = ascii "DAGU_CONTINUE_ON." ++ n.node_data.step.name

-- The end of `shouldContinue`: remember the answer and give it.
abbrev answer : Bool → Node → Bool × Node
answer b n = (b, with_data n (set_bool_variable (cache_key n) b n.node_data))

abbrev by_log : Option Bool → Node → Bool × Node
by_log none n = (false, n)
by_log (some b) n = answer b n

-- The tests after the switch of `shouldContinue`, in order: the remembered answer, the exit codes,
-- whether there are patterns, and whether the log holds one.
abbrev pub answer_by : Option Bool → Bool → Bool → Option Bool → Node → Bool × Node
answer_by (some v) matched no_pattern logged n = (v, n)
answer_by none true no_pattern logged n = answer true n
answer_by none false true logged n = answer false n
answer_by none false false logged n = by_log logged n

-- The part of `shouldContinue` after the switch.
unfoldable pub should_continue_by_output : LogCheck → Node → Bool × Node
unfolding set_bool_variable get_bool_variable match_exit_code
should_continue_by_output log n =
    let on = n.node_data.step.continue_on in
    answer_by (get_bool_variable (cache_key n) n.node_data)
      (match_exit_code on.exit_code n.node_data) (length on.output == 0) (log n.log_file on.output)
      n

unfoldable pub continue_by_status : LogCheck → NodeStatus → Node → Bool × Node
unfolding should_continue_by_output
continue_by_status log NodeStatus.success n = (true, n)
continue_by_status log NodeStatus.error n =
    if n.node_data.step.continue_on.failure then (true, n) else should_continue_by_output log n
continue_by_status log NodeStatus.cancel n = (false, n)
continue_by_status log NodeStatus.skipped n =
    if n.node_data.step.continue_on.skipped then (true, n) else should_continue_by_output log n
continue_by_status log NodeStatus.none n = (false, n)
continue_by_status log NodeStatus.running n = (false, n)

-- `shouldContinue`: the answer, and the node with the answer remembered.
unfoldable pub should_continue : LogCheck → Node → Bool × Node
unfolding continue_by_status
should_continue log n = continue_by_status log n.node_data.state.status n

-- `shouldMarkSuccess`
unfoldable pub should_mark_success : LogCheck → Node → Bool × Node
unfolding should_continue
should_mark_success log n =
    let (go_on, n') = should_continue log n in
    (if go_on then n'.node_data.step.continue_on.mark_success else false, n')

-- `Signal`, but for the kill of the command.
unfoldable pub signal : Node → Node
unfolding set_status
signal n =
    if is_running n.node_data.state.status
    then with_data n (set_status NodeStatus.cancel n.node_data)
    else n

-- `Cancel`, but for the call of the command's cancel function.
unfoldable pub cancel : Node → Node
unfolding set_status
cancel n =
    if is_running n.node_data.state.status
    then with_data n (set_status NodeStatus.cancel n.node_data)
    else n

-- `setupRetryPolicy`
abbrev eval_or : EvalInt → Text → ℤ → Option ℤ
eval_or eval text default = if text_eq text [] then some default else eval text

abbrev if_positive : ℤ → ℤ
if_positive z = if is_positive_int z then z else pos 0

abbrev with_limit : Node → Option ℤ → Option ℤ → Option Node
with_limit n none interval = none
with_limit n (some l) none = none
with_limit n (some l) (some i) =
    some (record n { retry_policy = record { limit = l; interval = i } })

-- `time.Duration(v) * time.Second`, in nanoseconds
abbrev seconds : ℤ → ℤ
seconds (pos n) = pos (n * 1_000_000_000)
seconds (negsuc n) = negsuc (n * 1_000_000_000 + 999_999_999)

unfoldable pub setup_retry_policy : EvalInt → Node → Option Node
unfolding text_eq
setup_retry_policy eval n =
    let policy = n.node_data.step.retry_policy in
    with_limit n (eval_or eval policy.limit_str (if_positive policy.limit)) (
      if text_eq policy.interval_sec_str []
      then some (if_positive policy.interval)
      else elim (eval policy.interval_sec_str) [ none ↦ none | some v ↦ some (seconds v) ])

-- `setupExecutor`, up to the evaluation of the command.
unfoldable pub start_execution : Node → Node
unfolding clear_variable reset_error
start_execution n =
    let d = reset_error (clear_variable (cache_key n) n.node_data) in
    record n { node_data = d; done = false; has_cancel = true }

-- How a command ended: it could not be set up, or it ran, with an error if it failed, and the
-- output was captured (`none` if that failed).
pub data Ended : Type 0 where
  not_started : Err → Ended
  ran : (error : Option Err) (exit_code : ℤ) (captured : Option Text) → Ended

abbrev record_run : Option Err → ℤ → NodeData → NodeData
unfolding set_exit_code set_error
record_run none code d = set_exit_code (pos 0) d
record_run (some e) code d = set_exit_code code (set_error (some e) d)

abbrev record_output : Option Text → Node → Node × Option Err
unfolding set_variable
record_output none n = (n, some (other (ascii "failed to capture output")))
record_output (some value) n =
    let d = set_variable n.node_data.step.output value n.node_data in (with_data n d, d.state.error)

-- The rest of `Execute`: the node, and the error that it returns.
unfoldable pub end_execution : Ended → Node → Node × Option Err
unfolding record_run record_output text_eq
end_execution (not_started e) n = (n, some e)
end_execution (ran error code captured) n =
    let d = record_run error code n.node_data in
    let n' = record n { node_data = d; has_cmd = true } in
    if text_eq d.step.output [] then (n', d.state.error) else record_output captured n'

-- `Teardown`, for what closing the node's files gives.
unfoldable pub teardown : Option Err → Node → Node × Option Err
unfolding set_error
teardown closing n = if n.done then (n, none) else elim closing [
  | none ↦ (record n { done = true }, none)
  | some e ↦ (record n { done = true; node_data = set_error (some e) n.node_data }, some e)
]
