-- ===== src/Agent/Samples.antt =====
-- An agent that runs a workflow of four steps.
use light_soar.Prelude.{pos, true, false, none, some, [], ◌∷◌, Text, ascii, ◌≡◌, ◌≢◌, refl, arith}
use light_soar.Digraph.Dag.{Dag, zero_dag}
use light_soar.Digraph.Conditions.{Evaluation}
use light_soar.Execution.Status.{Err, Status}
use light_soar.Execution.Graph.Samples.{in_order, sample_steps, built, built_ok}
use light_soar.Persistence.Record.Defs.{RunRecord}
use light_soar.Persistence.Record.Samples.{seconds_format, error_text}
use light_soar.Persistence.History.Files.{Outside, Operation, gives, Disk, file_at}
use light_soar.Persistence.History.Writer.{parse_status_file}
use light_soar.Persistence.History.Defs.{JsonDb, generate_file_path}
use light_soar.Persistence.History.Store.{temp_path}
use light_soar.Persistence.History.Written.{IsJson}
use light_soar.Persistence.History.Samples.{disk, db, new_path, history_outside, ne_of_test}
use light_soar.Client.Status.{failed}
use light_soar.Agent.Defs.{
  Agent, Snapshot, agent_status, Method, handle_http, stops, sends, kills, signal_agent, ticked,
  timed_out,
}
use light_soar.Agent.Run.{Surroundings, schedules, execution, run}
use light_soar.Agent.Recorded.{IsPrepared, run_records}
use light_soar.Agent.Closed.{IsClosed, run-IsClosed}

program : Unit {0}
unfolding agent_status run
program = tt

abbrev dag : Dag
dag = record zero_dag { name = ascii "job"; location = ascii "job"; steps = sample_steps }

abbrev agent : Agent
agent = record {
  dag = dag;
  dry = false;
  retry_target = none;
  request_id = ascii "r0";
  log_dir = [];
  log_file = [];
  pid = pos 7;
}

-- The run before its start and behind its end.
abbrev first : Snapshot
first = record {
  state = record { started = false; canceled = false; last_error = none };
  graph = built;
  handler_node = λ h. none;
}

abbrev finished : Snapshot
finished = record {
  state = record {
    started = true;
    canceled = false;
    last_error = some (Err.other (ascii "exit status 1"));
  };
  graph = record built { started_at = 5; finished_at = 8 };
  handler_node = λ h. none;
}

abbrev end_status : RunRecord
unfolding agent_status
end_status = agent_status seconds_format error_text agent finished

-- JSON that knows this status alone.
abbrev outside : Outside
outside = record history_outside { to_json = λ st. ascii "{}"; from_json = λ t. some end_status }

abbrev surroundings : Surroundings
surroundings = record {
  order = in_order;
  next = 1;
  answer = failed;
  serves = true;
  first = first;
  during = first ∷ [];
  finished = finished;
  late = [];
  behind = finished ∷ [];
  schedule_error = some (Err.other (ascii "exit status 1"));
  now = 9;
  timestamp = 5;
}

abbrev evaluation : Evaluation
evaluation = record {
  eval_string = λ t. some t;
  replace_vars = λ t. some t;
  runs = λ t. true;
  lines = λ t. t ∷ [];
  compile = λ t. none;
}

prepared : IsPrepared outside seconds_format error_text evaluation agent surroundings
unfolding program
prepared = record {
  graph = built;
  built = built_ok;
  conditions = refl;
  not_dry = refl;
  alone = refl;
  served = refl;
}

nothing_denied : (o : Operation) (p : Text) → outside.denied o p ≡ false
unfolding program history_outside
nothing_denied o p = refl

named : generate_file_path outside db (ascii "job") 5 (ascii "r0") ≡ gives new_path
unfolding program history_outside
named = refl

new_missing : file_at disk new_path ≡ none
unfolding program file_at
new_missing = refl

temp_apart : temp_path outside new_path ≢ new_path
unfolding program history_outside
temp_apart = ne_of_test (temp_path outside new_path) new_path refl

temp_missing : file_at disk (temp_path outside new_path) ≡ none
unfolding program file_at history_outside
temp_missing = refl

json : IsJson outside (agent_status seconds_format error_text agent finished)
unfolding program
json = record { reads = refl; one_line = refl; no_return = refl; some_bytes = ground arith }

run_records_example :
    (d : Disk) × (db' : JsonDb) × (run outside seconds_format error_text evaluation agent
        surroundings db disk
      ≡ (some (d, db'), schedules ∷ [], execution surroundings.schedule_error))
    × (parse_status_file outside new_path d
        ≡ gives (agent_status seconds_format error_text agent finished))
    × (db'.writer ≡ none)
run_records_example =
    run_records outside seconds_format error_text evaluation agent surroundings db disk new_path
      prepared nothing_denied refl named new_missing temp_apart temp_missing json

no_writer : db.writer ≡ none
unfolding program
no_writer = refl

run-IsClosed_example :
    IsClosed (run outside seconds_format error_text evaluation agent surroundings db disk).0
run-IsClosed_example =
    run-IsClosed outside seconds_format error_text evaluation agent surroundings db no_writer disk

reports_error : (agent_status seconds_format error_text agent finished).status ≡ Status.error
unfolding program
reports_error = refl

stops_on_request : handle_http end_status Method.post (ascii "/stop/") ≡ stops
unfolding program handle_http
stops_on_request = refl

kills_in_time :
    signal_agent 15 true (ticked ∷ timed_out ∷ ticked ∷ [])
    ≡ sends 15 true ∷ sends 15 false ∷ kills ∷ []
unfolding program signal_agent
kills_in_time = refl
