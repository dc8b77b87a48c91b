-- ===== src/Digraph/Builder/WorkflowSamples.antt =====
-- A definition of a workflow, and what `build` makes of it.
use light_soar.Prelude.{
  pos, true, false, none, some, [], ◌∷◌, ascii, text_eq, ◌≡◌, ◌↔◌, ◌⊎◌, inl, List, ◌++◌, refl,
}
use light_soar.Digraph.Value.{Value, null, str, int, arr, obj, nil, end, entry}
use light_soar.Digraph.Dag.{Dag, zero_dag}
use light_soar.Digraph.Builder.Result.{
  ok, err, BuildErr, ◌>>=◌, wrapped, invalid_schedule_type, invalid_key_type, step_name_required,
}
use light_soar.Digraph.Builder.Commands.{assert_functions}
use light_soar.Digraph.Builder.Schedules.{build_schedule}
use light_soar.Digraph.Builder.Steps.{Decoder, build_steps, build_step}
use light_soar.Digraph.Builder.Workflow.{Definition, Loading, build_envs, parse_tags}
use light_soar.Digraph.Builder.Build.{
  BuilderEntry, builders, first_dag, run_entries, builds, fails, build,
}
use light_soar.Digraph.Builder.Chain.{chain, build-chain}
use light_soar.Digraph.Builder.Collected.{FailsWith, build_collects}
use light_soar.Digraph.Builder.Samples.{world, step_def}

-- The steps are one copy without a name.
abbrev one_step : Decoder
one_step = record {
  decode_array = λ vs. some (record step_def { name = [] } ∷ []);
  decode_map = λ es. some ((ascii "copy", step_def) ∷ []);
}

abbrev loading : Loading
loading = record {
  eval_string = λ vars v. some v;
  can_set = λ k v. true;
  in_some_order = λ vars. vars;
  load_dotenv = λ files. none;
  build_params = λ v dag. ok dag;
}

abbrev definition : Definition
definition = record {
  name = ascii "backup";
  group = [];
  description = [];
  dotenv = null;
  schedule = null;
  skip_if_successful = true;
  log_dir = [];
  env = obj (entry (str (ascii "A")) (str (ascii "1")) end);
  handler_on = record { failure = none; success = none; cancel = none; exit = none };
  functions = [];
  steps = obj (entry (str (ascii "copy")) null end);
  smtp = record { host = []; port = []; username = []; password = [] };
  mail_on = none;
  error_mail = record { from = []; to = []; prefix = []; attach_logs = false };
  info_mail = record { from = []; to = []; prefix = []; attach_logs = false };
  timeout_sec = pos 2;
  delay_sec = pos 0;
  restart_wait_sec = pos 0;
  hist_retention_days = none;
  precondition = null;
  preconditions = null;
  max_active_runs = pos 0;
  params = null;
  max_clean_up_time_sec = none;
  tags = str (ascii " a, ,b");
}

program : Unit {0}
unfolding build assert_functions text_eq builders first_dag run_entries build_schedule build_steps
    build_step build_envs parse_tags
program = tt

metadata :
    build world loading one_step false true (ascii "f") definition
    ≡ builds (record zero_dag {
      location = ascii "f";
      name = ascii "backup";
      timeout = pos 2_000_000_000;
      tags = ascii "a" ∷ ascii "b" ∷ [];
      skip_if_successful = true;
      env = ascii "A=1" ∷ [];
    })
unfolding program
metadata = refl

-- Two builders fail, and both errors are returned.
two_errors :
    build world loading one_step false false []
      (record definition { schedule = int (pos 1); steps = arr nil })
    ≡ fails (
        wrapped
          (ascii "schedule")
          null
          (wrapped (ascii "schedule") (int (pos 1)) invalid_schedule_type)
        ∷ wrapped (ascii "steps") null (wrapped (ascii "name") (str []) step_name_required)
        ∷ [])
unfolding program
two_errors = refl

build-chain_example : (build world loading one_step false true [] definition ≡ builds zero_dag) ↔ (
    (chain true
        (builders world loading one_step false definition)
        (first_dag world loading one_step false [] definition)
      ≡ ok zero_dag)
    × ((true ≡ true) ⊎ (assert_functions [] definition.functions ≡ ok tt)))
build-chain_example = build-chain world loading one_step false true [] definition zero_dag

-- A map with a number for a key.
abbrev numbered : Value
numbered = obj (entry (int (pos 1)) null end)

-- The first two builders fail.
abbrev failing : Definition
failing = record definition { env = numbered; schedule = int (pos 1) }

abbrev env_entry : BuilderEntry
env_entry = record {
  metadata = true;
  name = ascii "env";
  fn = build_envs world loading false numbered;
}

abbrev schedule_entry : BuilderEntry
schedule_entry = record {
  metadata = true;
  name = ascii "schedule";
  fn = λ dag. build_schedule world (int (pos 1)) >>= λ r.
      ok (record dag { schedule = r.start; stop_schedule = r.stop; restart_schedule = r.restart });
}

abbrev behind_two : List BuilderEntry → List BuilderEntry
behind_two (e ∷ f ∷ es) = es
behind_two es = es

abbrev env_errors : List BuildErr
env_errors =
    wrapped (ascii "env") null
      (wrapped (ascii "env") numbered (wrapped (ascii "env") (int (pos 1)) invalid_key_type))
    ∷ []

abbrev failing_start : Dag
unfolding program
failing_start = first_dag world loading one_step false [] failing

env_fails : run_entries false (env_entry ∷ []) (failing_start, []) ≡ ok (failing_start, env_errors)
unfolding program
env_fails = refl

failing_entries :
    builders world loading one_step false failing
    ≡ (env_entry ∷ [])
      ++ schedule_entry ∷ behind_two (builders world loading one_step false failing)
unfolding program
failing_entries = refl

schedule_fails :
    schedule_entry.fn failing_start
    ≡ err (wrapped (ascii "schedule") (int (pos 1)) invalid_schedule_type)
unfolding program
schedule_fails = refl

build_collects_example :
    FailsWith
      (env_errors
        ++ wrapped
            (ascii "schedule")
            null
            (wrapped (ascii "schedule") (int (pos 1)) invalid_schedule_type)
          ∷ [])
      (build world loading one_step false false [] failing)
unfolding first_dag failing_start
build_collects_example =
    build_collects world loading one_step false false [] failing (env_entry ∷ []) schedule_entry
      (behind_two (builders world loading one_step false failing)) failing_start env_errors
      (wrapped (ascii "schedule") (int (pos 1)) invalid_schedule_type) failing_entries env_fails
      (inl refl) schedule_fails
