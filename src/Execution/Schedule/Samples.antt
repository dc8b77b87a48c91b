-- ===== src/Execution/Schedule/Samples.antt =====
-- A run of three nodes, of which the last depends on the others, and the theorems at it.
use light_soar.Prelude.{
  ℕ, ◌≤◌, ◌<◌, pos, true, false, none, some, List, [], ◌∷◌, map, ◌++◌, ◌==◌, if◌then◌else◌, all,
  count, GoMap, Text, ascii, text_eq, ◌≡◌, ◌⊎◌, inl, inr, refl, arith,
}
use light_soar.Digraph.Step.{zero_step}
use light_soar.Execution.Status.{NodeStatus, Status, other, is_running, is_none}
use light_soar.Execution.Data.{Node, new_node, zero_state, set_status}
use light_soar.Execution.Graph.Defs.{ExecutionGraph, empty_graph}
use light_soar.Execution.Node.Defs.{LogCheck, EvalInt, ran, should_continue}
use light_soar.Execution.Schedule.Defs.{
  status_at, is_ready, running_count, is_finished, is_succeed, run_status,
}
use light_soar.Execution.Schedule.Worker.{Config, Run, SetupInput}
use light_soar.Execution.Schedule.Machine.{
  Event, visit, start, preconditions_checked, set_up, loop_entered, command_ended, behind_loop,
  canceled, node_canceled, signaled, step, steps, Cancels,
}
use light_soar.Execution.Schedule.Ready.{is_ready_answer}
use light_soar.Execution.Schedule.Capacity.{occupied, steps_capacity}
use light_soar.Execution.Graph.Construct.{new_execution_graph}
use light_soar.Execution.Graph.Samples.{built, built-IsComplete}
use light_soar.Execution.Schedule.Progress.{visit_progress}
use light_soar.Execution.Schedule.Ends.{
  repeats, canceled_starts_nothing, cancel_run_ends, signal_run_ends,
}

abbrev no_log : LogCheck
no_log name patterns = some false

abbrev no_ints : EvalInt
no_ints t = none

abbrev at_most_one : Config
at_most_one = record { dry = false; max_active_runs = pos 1; notifies = true }

program : Unit {0}
unfolding steps step is_ready running_count is_finished is_succeed run_status new_node set_status
    should_continue text_eq
program = tt

abbrev named : Text → Node
unfolding new_node
named t = new_node (record zero_step { name = t }) zero_state

abbrev three : GoMap Node
unfolding new_node
three = record { keys = 1 ∷ 2 ∷ 3 ∷ []; at = λ i. named (ascii "step") }

abbrev joined : ExecutionGraph
joined = record empty_graph {
  nodes = 1 ∷ 2 ∷ 3 ∷ [];
  to = record { keys = 3 ∷ []; at = λ i. if i == 3 then 1 ∷ 2 ∷ [] else [] };
}

abbrev fresh_run : Run
unfolding new_node
fresh_run = record {
  nodes = three;
  state = record { started = true; canceled = false; last_error = none };
  workers = [];
  admitted = none;
}

abbrev input : SetupInput
input = record {
  dir_made = true;
  log_name = ascii "step.log";
  now = 5;
  stdout = some [];
  stderr = some [];
  dir = some [];
  log_opened = true;
  files_opened = true;
}

-- The first goroutine from its start to its end.
abbrev one_node : List Event
one_node =
    preconditions_checked 0 none 4
    ∷ set_up 0 input
    ∷ loop_entered 0
    ∷ command_ended 0 (ran none (pos 0) (some [])) false none 6
    ∷ behind_loop 0 none 7
    ∷ []

abbrev round : List Event
round = visit 1 ∷ start ∷ visit 2 ∷ start ∷ visit 3 ∷ start ∷ one_node

abbrev whole : List Event
whole = round ++ round ++ round

abbrev after : List Event → Run
unfolding program
after es = steps at_most_one no_log no_ints joined es fresh_run

one_at_a_time :
    (status_at (after round).nodes 1 ≡ NodeStatus.success)
    × (status_at (after round).nodes 2 ≡ NodeStatus.none)
    × (status_at (after (round ++ (visit 2 ∷ start ∷ []))).nodes 2 ≡ NodeStatus.running)
unfolding program
one_at_a_time = (refl, refl, refl)

all_done : run_status (after whole).state joined.nodes (after whole).nodes ≡ Status.success
unfolding program
all_done = refl

-- A node that retries, repeats, and goes on when it fails.
abbrev stubborn : Run
unfolding new_node
stubborn = record fresh_run {
  nodes = record three {
    at = λ i.
        new_node
          (record zero_step {
            continue_on = record zero_step.continue_on { failure = true };
            retry_policy = record zero_step.retry_policy { limit = pos 1 };
            repeat_policy = record { repeat = true; interval = pos 0 };
          })
          zero_state;
  };
}

-- Its execution fails: it stands at none for the retry while its goroutine repeats, and the loop
-- over the nodes starts a second goroutine for it.
second_goroutine :
    map
      (λ w. w.node)
      (steps at_most_one no_log no_ints joined
        (visit 1
          ∷ start
          ∷ preconditions_checked 0 none 4
          ∷ set_up 0 input
          ∷ loop_entered 0
          ∷ command_ended 0 (ran (some (other (ascii "exit 1"))) (pos 1) (some [])) false none 6
          ∷ visit 1
          ∷ start
          ∷ [])
        stubborn).workers
    ≡ 1 ∷ 1 ∷ []
unfolding program
second_goroutine = refl

joined-once : (j : ℕ) → count j (joined.to.at 3) ≤ 1
joined-once j = ground arith

joined-distinct : (v : ℕ) → count v joined.nodes ≤ 1
joined-distinct v = ground arith

is_ready_answer_example :
    (is_ready no_log joined 3 (after whole).nodes).0
    ≡ all (λ dep. (should_continue no_log ((after whole).nodes.at dep)).0) (1 ∷ 2 ∷ [])
is_ready_answer_example = is_ready_answer no_log joined 3 joined-once refl (after whole).nodes

fresh_count : occupied joined fresh_run ≤ 1
unfolding program
fresh_count = omega arith

steps_capacity_example : occupied joined (after whole) ≤ 1
unfolding after
steps_capacity_example =
    steps_capacity at_most_one no_log no_ints joined 0 refl joined-distinct whole fresh_run
      fresh_count

-- A node is admitted, and the run is canceled before it starts.
abbrev stopping : Run
stopping = after (visit 1 ∷ canceled ∷ [])

stopping_canceled : stopping.state.canceled ≡ true
unfolding program
stopping_canceled = refl

starts_behind :
    is_running
      (status_at (steps at_most_one no_log no_ints joined (start ∷ visit 2 ∷ []) stopping).nodes 1)
    ≡ true
unfolding program
starts_behind = refl

canceled_starts_nothing_example :
    (is_running (status_at stopping.nodes 1) ≡ true) ⊎ (stopping.admitted ≡ some 1)
canceled_starts_nothing_example =
    canceled_starts_nothing at_most_one no_log no_ints joined (start ∷ visit 2 ∷ []) stopping
      stopping_canceled 1 starts_behind

-- The calls of `Cancel`, the first of which comes before the start.
abbrev cancels : List Event
cancels = node_canceled 1 ∷ start ∷ node_canceled 2 ∷ visit 2 ∷ node_canceled 3 ∷ []

cancels_all : Cancels at_most_one no_log no_ints joined cancels
cancels_all = inl (refl, inr (inl (refl, inr (inl (refl, record {})))))

runs_behind :
    is_running (
      status_at
        (steps at_most_one no_log no_ints joined (canceled ∷ cancels) (after (visit 1 ∷ []))).nodes
        1)
    ≡ true
unfolding program
runs_behind = refl

cancel_run_ends_example : (after (visit 1 ∷ [])).admitted ≡ some 1
cancel_run_ends_example =
    cancel_run_ends at_most_one no_log no_ints joined cancels (after (visit 1 ∷ [])) 1 cancels_all
      (omega arith) runs_behind

stopping_once : repeats stopping 1 ≡ false
unfolding program
stopping_once = refl

runs_signaled :
    is_running (
      status_at
        (steps at_most_one no_log no_ints joined (signaled 1 ∷ start ∷ []) stopping).nodes
        1)
    ≡ true
unfolding program
runs_signaled = refl

signal_run_ends_example : stopping.admitted ≡ some 1
signal_run_ends_example =
    signal_run_ends at_most_one no_log no_ints joined (start ∷ []) stopping 1 stopping_canceled
      stopping_once runs_signaled

fresh_live : fresh_run.state.canceled ≡ false
unfolding program
fresh_live = refl

fresh_quiet : (j : ℕ) → is_running (status_at fresh_run.nodes j) ≡ false
unfolding program
fresh_quiet j = refl

fresh_waits : is_none (status_at fresh_run.nodes 1) ≡ true
unfolding program
fresh_waits = refl

built_node : 0 < count 1 built.nodes
unfolding new_execution_graph text_eq
built_node = omega arith

visit_progress_example :
    (i : ℕ) × (0 < count i built.nodes)
    × (is_none (status_at fresh_run.nodes i) ≡ true)
    × (is_none (
          status_at
            (steps at_most_one no_log no_ints built (visit i ∷ start ∷ []) fresh_run).nodes
            i)
        ≡ false)
unfolding fresh_run
visit_progress_example =
    visit_progress at_most_one no_log no_ints built built-IsComplete fresh_run fresh_live refl
      fresh_quiet 1 built_node fresh_waits
