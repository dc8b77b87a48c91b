-- ===== src/Frontend/Samples.antt =====
-- A run of one step that a user marks as successful.
use light_soar.Prelude.{
  ◌==◌, Bool, true, false, Option, none, some, [], ◌∷◌, Text, ascii, text_eq, if◌then◌else◌, ◌≡◌,
  refl, arith,
}
use light_soar.Digraph.Dag.{Dag, zero_dag}
use light_soar.Digraph.Step.{zero_step}
use light_soar.Execution.Status.{Status, NodeStatus}
use light_soar.Persistence.Record.Defs.{RunRecord, NodeRecord, new_record, create_default}
use light_soar.Persistence.Record.Samples.{seconds_format}
use light_soar.Persistence.History.Files.{Outside, file_at, gives}
use light_soar.Persistence.History.Defs.{StatusFile}
use light_soar.Persistence.History.Store.{
  find_among, find_by_request_id, find_in, has_request_id, update,
}
use light_soar.Persistence.History.Writer.{line_text, parse_opened, take_line}
use light_soar.Persistence.History.Written.{IsJson}
use light_soar.Persistence.History.Update.{Updated}
use light_soar.Persistence.History.Samples.{
  history_outside, disk, db, old_path, old_file, was_there, ended, run_record,
}
use light_soar.Client.Status.{failed, get_status_by_request_id}
use light_soar.Frontend.Actions.{
  ActionBody, ClientCall, update_status, process_update_status, post_action, refused,
  already_running,
}
use light_soar.Frontend.Marks.{with_mark, found_status, has_step, process_update_status-finds}

program : Unit {0}
unfolding history_outside has_step new_record find_by_request_id with_mark process_update_status
    post_action find_among find_in has_request_id parse_opened file_at line_text take_line
    create_default
program = tt

abbrev node : NodeRecord
node = record (new_record (record zero_step { name = ascii "a" })) { status = NodeStatus.error }

abbrev run_with : NodeRecord → RunRecord
run_with n = record (run_record Status.error (ascii "r0")) { nodes = n ∷ [] }

abbrev marked_node : NodeRecord
marked_node = record node { status = NodeStatus.success; status_text = ascii "finished" }

-- JSON of two statuses, which begin with an S and an R.
abbrev decoded : Text → Option RunRecord
decoded [] = none
decoded (c ∷ s) = some (run_with (if c == b'S' then marked_node else node))

abbrev outside : Outside
outside = record history_outside { to_json = λ st. ascii "S"; from_json = decoded }

abbrev dag : Dag
dag = record zero_dag { name = ascii "job"; location = ascii "job" }

abbrev body : ActionBody
body = record {
  action = some (ascii "mark-success");
  value = [];
  request_id = ascii "r0";
  step = ascii "a";
  params = [];
}

abbrev found_file : StatusFile
found_file = record { file = old_path; status = run_with node }

was_found : find_by_request_id outside db (ascii "job") (ascii "r0") disk ≡ gives found_file
unfolding program
was_found = refl

asks_run : text_eq body.request_id [] ≡ false
unfolding program
asks_run = refl

asks_step : text_eq body.step [] ≡ false
unfolding program
asks_step = refl

abbrev succeeds : ClientCall → Bool
succeeds c = true

json : IsJson outside (
    with_mark outside seconds_format succeeds dag failed
      (ascii "r0")
      NodeStatus.success
      found_file
      []
      node
      [])
unfolding program
json = record { reads = refl; one_line = refl; no_return = refl; some_bytes = ground arith }

named : node.step.name ≡ body.step
unfolding program
named = refl

is_last : has_step body.step [] ≡ false
unfolding program
is_last = refl

process_update_status-finds_example :
    ((process_update_status succeeds
        (λ id.
          get_status_by_request_id seconds_format outside.from_json dag failed id
            (found_status (find_by_request_id outside db dag.location id disk)))
        body
        (run_with node)
        NodeStatus.success).0
      ≡ some (
          update_status (
            with_mark outside seconds_format succeeds dag failed body.request_id NodeStatus.success
              found_file [] node [])))
    × Updated outside db dag.location
        (with_mark outside seconds_format succeeds dag failed body.request_id NodeStatus.success
          found_file [] node [])
        found_file
        body.request_id
        disk
        (update outside 9 db dag.location body.request_id
          (with_mark outside seconds_format succeeds dag failed body.request_id NodeStatus.success
            found_file [] node [])
          disk)
process_update_status-finds_example =
    process_update_status-finds outside seconds_format succeeds dag failed body (run_with node)
      NodeStatus.success 9 db disk found_file old_file [] [] node asks_run asks_step refl was_found
      was_there ended refl named is_last json

starts_once :
    post_action succeeds
      (λ id. none)
      (record body { action = some (ascii "start") })
      (some (run_record Status.running (ascii "r0")))
    ≡ (none, refused already_running)
unfolding program
starts_once = refl
