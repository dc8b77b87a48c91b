-- ===== src/Execution/Schedule/Worker.antt =====
-- The goroutine that `Schedule` starts for a node, cut where it waits: the precondition, the setup,
-- each execution, the end. What the outside does in between is an argument.
use light_soar.Prelude.{
  ℕ, ◌==◌, ℤ, int_exceeds, Bool, true, false, not, ◌&&◌, Option, none, some, List, Text, ascii,
  if◌then◌else◌, length, put,
}
use light_soar.Digraph.Step.{Step}
use light_soar.Execution.Status.{NodeStatus, Err, other, is_running, is_cancel}
use light_soar.Execution.Data.{
  NodeData, Node, with_state, set_status, set_error, mark_error, finish, inc_retry_count,
  set_retried_at, inc_done_count,
}
use light_soar.Execution.Node.Defs.{
  LogCheck, EvalInt, with_data, should_mark_success, setup_retry_policy, start_execution, Ended,
  end_execution, teardown,
}
use light_soar.Execution.Schedule.Defs.{Nodes, RunState, status_at}

-- `Config`: whether the run is dry, how many nodes may run, and whether `done` is a channel.
pub record Config : Type 0 where
  pub dry : Bool
  pub max_active_runs : ℤ
  pub notifies : Bool

pub data Phase : Type 0 where
  starting preparing executing ending : Phase
  looping : (set_up : Bool) → Phase

pub record Worker : Type 0 where
  pub node : ℕ
  pub phase : Phase

pub record Run : Type 0 where
  pub nodes : Nodes
  pub state : RunState
  pub workers : List Worker
  -- the node that the loop has admitted and not yet set running
  pub admitted : Option ℕ

abbrev pub change : (NodeData → NodeData) → ℕ → Run → Run
change f i r = record r {
  nodes = put r.nodes i (with_data (r.nodes.at i) (f (r.nodes.at i).node_data));
}

abbrev pub replace : ℕ → Node → Run → Run
replace i n r = record r { nodes = put r.nodes i n }

-- `setLastError`
abbrev pub set_last_error : Err → Run → Run
set_last_error e r = record r { state = record r.state { last_error = some e } }

-- A goroutine's next phase, or `none` where it ends.
abbrev pub Next : Type 0
Next = Run × Option Phase

-- The check of the preconditions; `failure` is what `EvalConditions` gives.
unfoldable pub check_preconditions : Option Err → ℕ → ℕ → Run → Next
unfolding set_status set_error finish
check_preconditions none now i r = (r, some preparing)
check_preconditions (some e) now i r =
    if length (r.nodes.at i).node_data.step.preconditions == 0
    then (r, some preparing)
    else (change (λ d. finish now (set_error (some e) (set_status NodeStatus.skipped d))) i r, none)

-- What `Node.Setup` finds outside: whether the directory could be made, the name of the log file,
-- the time, the values of the step's texts, and whether the files could be opened.
pub record SetupInput : Type 0 where
  pub dir_made : Bool
  pub log_name : Text
  pub now : ℕ
  pub stdout : Option Text
  pub stderr : Option Text
  pub dir : Option Text
  pub log_opened : Bool
  pub files_opened : Bool

abbrev failed : Node → Node × Option Err
failed n = (n, some (other (ascii "failed to set up")))

abbrev with_step : Node → Step → Node
with_step n s = with_data n (record n.node_data { step = s })

abbrev setup_policy : EvalInt → Node → Node × Option Err
unfolding setup_retry_policy
setup_policy eval n = elim (setup_retry_policy eval n) [ none ↦ failed n | some n' ↦ (n', none) ]

abbrev setup_outputs : EvalInt → SetupInput → Node → Node × Option Err
unfolding setup_retry_policy
setup_outputs eval x n =
    if x.log_opened
    then (let n' = record n { log_file = n.node_data.state.log } in
        if x.files_opened then setup_policy eval n' else failed n')
    else failed n

abbrev setup_dir : EvalInt → SetupInput → Option Text → Node → Node × Option Err
unfolding setup_retry_policy
setup_dir eval x none n = failed n
setup_dir eval x (some t) n =
    setup_outputs eval x (with_step n (record n.node_data.step { dir = t }))

abbrev setup_stderr : EvalInt → SetupInput → Option Text → Node → Node × Option Err
unfolding setup_retry_policy
setup_stderr eval x none n = failed n
setup_stderr eval x (some t) n =
    setup_dir eval x x.dir (with_step n (record n.node_data.step { stderr = t }))

abbrev setup_stdout : EvalInt → SetupInput → Option Text → Node → Node × Option Err
unfolding setup_retry_policy
setup_stdout eval x none n = failed n
setup_stdout eval x (some t) n =
    setup_stderr eval x x.stderr (with_step n (record n.node_data.step { stdout = t }))

-- `Node.Setup`
unfoldable pub node_setup : EvalInt → SetupInput → Node → Node × Option Err
unfolding setup_retry_policy
node_setup eval x n =
    if x.dir_made
    then setup_stdout eval x x.stdout (
        with_data n (
          with_state n.node_data
            (record n.node_data.state { log = x.log_name; started_at = x.now })))
    else failed n

unfoldable pub after_setup : ℕ → Option Err → Run → Next
unfolding mark_error
after_setup i none r = (r, some (looping true))
after_setup i (some e) r =
    (change (mark_error (some e)) i (set_last_error e r), some (looping false))

-- `setupNode`, and what the goroutine does with its error.
unfoldable pub prepare : Config → EvalInt → SetupInput → ℕ → Run → Next
unfolding node_setup after_setup
prepare cfg eval x i r =
    if cfg.dry
    then (r, some (looping true))
    else let (n, e) = node_setup eval x (r.nodes.at i) in after_setup i e (replace i n r)

-- The head of the loop `ExecRepeat`, and the start of `Execute`.
unfoldable pub proceed : Config → Bool → ℕ → Run → Next
unfolding start_execution
proceed cfg set_up i r =
    if set_up && not r.state.canceled
    then (if cfg.dry then r else replace i (start_execution (r.nodes.at i)) r, some executing)
    else (r, some ending)

-- The last case of the switch on a failed execution.
unfoldable pub give_up : LogCheck → Err → ℕ → Run → Run
unfolding set_status mark_error should_mark_success
give_up log e i r =
    let failed_run = change (set_status NodeStatus.error) i r in
    let (marks, n) = should_mark_success log (failed_run.nodes.at i) in
    let asked = replace i n failed_run in
    if marks
    then change (set_status NodeStatus.success) i asked
    else set_last_error e (change (mark_error (some e)) i asked)

-- The cases of the switch on a failed execution behind the first.
unfoldable pub on_open_failure : LogCheck → (timed_out : Bool) → (now : ℕ) → Err → ℕ → Run → Run
unfolding give_up set_status inc_retry_count set_retried_at
on_open_failure log timed_out now e i r =
    let n = r.nodes.at i in
    if timed_out
    then set_last_error e (change (set_status NodeStatus.cancel) i r)
    else if r.state.canceled
    then set_last_error e r
    else if int_exceeds n.retry_policy.limit n.node_data.state.retry_count
    then change (λ d. set_status NodeStatus.none (set_retried_at now (inc_retry_count d))) i r
    else give_up log e i r

-- The switch on a failed execution, by the status of the node.
unfoldable pub on_failure :
    LogCheck → (timed_out : Bool) → (now : ℕ) → Err → ℕ → NodeStatus → Run → Run
unfolding on_open_failure
on_failure log timed_out now e i NodeStatus.success r = r
on_failure log timed_out now e i NodeStatus.cancel r = r
on_failure log timed_out now e i _ r = on_open_failure log timed_out now e i r

unfoldable pub count_done : ℕ → Run → Run
unfolding inc_done_count
count_done i r = if is_cancel (status_at r.nodes i) then r else change inc_done_count i r

-- `teardownNode`
unfoldable pub teardown_node : Config → Option Err → ℕ → Run → Run × Option Err
unfolding teardown
teardown_node cfg closing i r =
    if cfg.dry
    then (r, none)
    else let (n, e) = teardown closing (r.nodes.at i) in (replace i n r, e)

-- The deferred calls: the teardown, whose error is dropped, and `Finish`.
unfoldable pub leave : Config → Option Err → ℕ → ℕ → Run → Run
unfolding teardown_node finish
leave cfg closing now i r = change (finish now) i (teardown_node cfg closing i r).0

-- The end of the loop's body: repeat, return, or go on behind the loop.
unfoldable pub go_round : Config → Option Err → (now : ℕ) → Option Err → ℕ → Run → Next
unfolding leave
go_round cfg closing now none i r =
    if (r.nodes.at i).node_data.step.repeat_policy.repeat && not r.state.canceled
    then (r, some (looping true))
    else (r, some ending)
go_round cfg closing now (some e) i r =
    let s = (r.nodes.at i).node_data.step in
    if s.repeat_policy.repeat && s.continue_on.failure && not r.state.canceled
    then (r, some (looping true))
    else if cfg.notifies
    then (leave cfg closing now i r, none)
    else (r, some ending)

unfoldable pub handle : LogCheck → Bool → ℕ → Option Err → ℕ → Run → Run
unfolding on_failure
handle log timed_out now none i r = r
handle log timed_out now (some e) i r = on_failure log timed_out now e i (status_at r.nodes i) r

unfoldable pub executed_as :
    Config
    → LogCheck
    → (timed_out : Bool) → (closing : Option Err) → (now : ℕ) → ℕ
    → Node × Option Err
    → Run
    → Next
unfolding handle count_done go_round
executed_as cfg log timed_out closing now i (n, e) r =
    go_round cfg closing now e i (count_done i (handle log timed_out now e i (replace i n r)))

-- The loop's body from the end of the execution on.
unfoldable pub executed :
    Config
    → LogCheck
    → Ended
    → (timed_out : Bool) → (closing : Option Err) → (now : ℕ) → ℕ
    → Run
    → Next
unfolding end_execution executed_as
executed cfg log ended timed_out closing now i r =
    executed_as cfg log timed_out closing now i
      (if cfg.dry then (r.nodes.at i, none) else end_execution ended (r.nodes.at i)) r

unfoldable pub succeed : ℕ → Run → Run
unfolding set_status
succeed i r =
    if is_running (status_at r.nodes i) then change (set_status NodeStatus.success) i r else r

unfoldable pub after_teardown : ℕ → Option Err → Run → Run
unfolding set_status
after_teardown i none r = r
after_teardown i (some e) r = change (set_status NodeStatus.error) i (set_last_error e r)

-- The goroutine's end behind the loop. The deferred teardown finds the node torn down.
unfoldable pub conclude : Config → (closing : Option Err) → (now : ℕ) → ℕ → Run → Next
unfolding succeed after_teardown teardown_node finish
conclude cfg closing now i r =
    let (r', e) = teardown_node cfg closing i (succeed i r) in
    (change (finish now) i (after_teardown i e r'), none)

-- A panic: the deferred calls, of which the teardown is deferred only behind the setup, and then
-- the recovery.
unfoldable pub panicked :
    Config → (set_up : Bool) → (closing : Option Err) → (now : ℕ) → Err → ℕ → Run → Next
unfolding leave mark_error
panicked cfg set_up closing now e i r =
    let left = if set_up then leave cfg closing now i r else change (finish now) i r in
    (set_last_error e (change (mark_error (some e)) i left), none)
