-- ===== src/Client/Samples.antt =====
-- The status of a workflow whose agent does not answer.
use light_soar.Prelude.{pos, Option, none, some, [], Text, ascii, text_eq, ◌≡◌, ◌↔◌, refl}
use light_soar.Digraph.Dag.{Dag, zero_dag}
use light_soar.Execution.Status.{Status, status_text}
use light_soar.Persistence.Record.Defs.{RunRecord, create_default, correct_running_status}
use light_soar.Persistence.Record.Samples.{seconds_format}
use light_soar.Client.Status.{
  reply, failed, current_status, get_status_by_request_id, get_latest_status, no_data,
  update_status, dag_is_running, MayRun, get_status_by_request_id-running,
  get_latest_status-running,
}

abbrev dag : Dag
dag = record zero_dag { name = ascii "backup" }

-- A record of the run `id` that says that it runs.
abbrev run_record : Text → RunRecord
run_record id = record {
  request_id = id;
  name = ascii "backup";
  status = Status.running;
  status_text = ascii "running";
  pid = pos 7;
  nodes = [];
  on_exit = none;
  on_success = none;
  on_failure = none;
  on_cancel = none;
  started_at = ascii "-";
  finished_at = ascii "-";
  log = [];
  params = [];
  params_list = [];
}

-- A decoder that takes any text for the record of the run with this text.
abbrev decoder : Text → Option RunRecord
decoder t = some (run_record t)

program : Unit {0}
unfolding get_status_by_request_id get_latest_status text_eq status_text correct_running_status
    create_default update_status
program = tt

crashed :
    get_status_by_request_id seconds_format decoder dag failed
      (ascii "1")
      (some (run_record (ascii "1")))
    ≡ some (record (run_record (ascii "1")) { status = Status.error; status_text = ascii "failed" })
unfolding program
crashed = refl

replaced :
    update_status seconds_format decoder (reply (ascii "1")) (run_record (ascii "1"))
    ≡ dag_is_running
unfolding program
replaced = refl

asked :
    get_status_by_request_id seconds_format decoder dag
      (reply (ascii "1"))
      (ascii "1")
      (some (run_record (ascii "1")))
    ≡ some (run_record (ascii "1"))
unfolding program
asked = refl

get_status_by_request_id-running_example : ((run_record (ascii "1")).status ≡ Status.running) ↔ (
    ((run_record (ascii "1")).status ≡ Status.running)
    × MayRun decoder (reply (ascii "1")) (ascii "1"))
get_status_by_request_id-running_example =
    get_status_by_request_id-running seconds_format decoder dag (reply (ascii "1")) (ascii "1")
      (run_record (ascii "1")) (run_record (ascii "1")) asked

latest_runs :
    (get_latest_status seconds_format decoder dag (reply (ascii "2")) no_data).0.status
    ≡ Status.running
unfolding program
latest_runs = refl

get_latest_status-running_example :
    current_status seconds_format decoder (reply (ascii "2"))
    ≡ some (get_latest_status seconds_format decoder dag (reply (ascii "2")) no_data).0
get_latest_status-running_example =
    get_latest_status-running seconds_format decoder dag (reply (ascii "2")) no_data latest_runs
