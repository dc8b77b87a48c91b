-- ===== src/Execution/Node/Samples.antt =====
-- Nodes that have failed, and what is remembered of them.
use light_soar.Prelude.{
  ◌<◌, pos, true, false, none, some, [], ◌∷◌, Text, ascii, text_eq, count, ◌≡◌, ◌≢◌, refl, arith,
}
use light_soar.Digraph.Step.{zero_step}
use light_soar.Digraph.Variables.{load}
use light_soar.Execution.Status.{NodeStatus}
use light_soar.Execution.Data.{Node, new_node, zero_state, get_bool_variable, match_exit_code}
use light_soar.Execution.Node.Defs.{LogCheck, cache_key, should_continue}
use light_soar.Execution.Node.Continue.{should_continue_forgets}

abbrev found : LogCheck
found name patterns = some true

abbrev not_found : LogCheck
not_found name patterns = some false

-- A node that failed with the exit code 3, which lets the run go on.
abbrev failed_node : Text → Node
unfolding new_node
failed_node t =
    new_node
      (record zero_step {
        name = t;
        continue_on = record zero_step.continue_on { exit_code = pos 3 ∷ [] };
      })
      (record zero_state { status = NodeStatus.error; exit_code = pos 3 })

readable :
    found
      (failed_node (ascii "a")).log_file
      (failed_node (ascii "a")).node_data.step.continue_on.output
    ≢ none
readable h = cc

program : Unit {0}
unfolding new_node should_continue get_bool_variable load match_exit_code text_eq
program = tt

plain_name : count b'=' (failed_node (ascii "a")).node_data.step.name ≡ 0
unfolding program
plain_name = refl

name_with_eq : 0 < count b'=' (failed_node (ascii "a=b")).node_data.step.name
unfolding program
name_with_eq = omega arith

has_failed : (failed_node (ascii "a=b")).node_data.state.status ≡ NodeStatus.error
unfolding program
has_failed = refl

no_flag : (failed_node (ascii "a=b")).node_data.step.continue_on.failure ≡ false
unfolding program
no_flag = refl

not_cached :
    get_bool_variable (cache_key (failed_node (ascii "a=b"))) (failed_node (ascii "a=b")).node_data
    ≡ none
unfolding program
not_cached = refl

code_matches :
    match_exit_code
      (failed_node (ascii "a=b")).node_data.step.continue_on.exit_code
      (failed_node (ascii "a=b")).node_data
    ≡ true
unfolding program
code_matches = refl

should_continue_forgets_example :
    ((should_continue found (failed_node (ascii "a=b"))).0 ≡ true)
    × ((should_continue found (should_continue found (failed_node (ascii "a=b"))).1).0 ≡ false)
should_continue_forgets_example =
    should_continue_forgets found found (failed_node (ascii "a=b")) name_with_eq has_failed no_flag
      not_cached code_matches
