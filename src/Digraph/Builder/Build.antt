-- ===== src/Digraph/Builder/Build.antt =====
-- `build` and its registry (internal/digraph/builder.go): the errors of all builders are collected.
use light_soar.Prelude.{
  ℤ, Bool, true, false, not, ◌&&◌, Option, none, some, List, [], ◌∷◌, ◌++◌, if◌then◌else◌, Text,
  ascii,
}
use light_soar.Digraph.Value.{null}
use light_soar.Digraph.Step.{Step}
use light_soar.Digraph.Dag.{Dag, MailOn, MailConfig, zero_dag}
use light_soar.Digraph.Builder.Result.{Outside, BuildErr, wrapped, Result, ok, err, panic, ◌>>=◌}
use light_soar.Digraph.Builder.Fields.{seconds}
use light_soar.Digraph.Builder.Preconditions.{parse_precondition}
use light_soar.Digraph.Builder.Schedules.{build_schedule}
use light_soar.Digraph.Builder.Commands.{FuncDef, assert_functions}
use light_soar.Digraph.Builder.Steps.{StepDef, Decoder, build_step, build_steps}
use light_soar.Digraph.Builder.Workflow.{
  MailConfigDef, MailOnDef, Definition, Loading, parse_tags, build_envs, build_dotenv,
}

-- `buildMailConfig`
unfoldable pub build_mail_config : MailConfigDef → MailConfig
build_mail_config d = record {
  from = d.from;
  to = d.to;
  prefix = d.prefix;
  attach_logs = d.attach_logs;
}

abbrev mail_on : Option MailOnDef → Option MailOn → Option MailOn
mail_on none old = old
mail_on (some m) old = some (record { failure = m.failure; success = m.success })

abbrev seconds_or : ℤ → Option ℤ → ℤ
seconds_or old none = old
seconds_or old (some s) = seconds s

abbrev given_or : ℤ → Option ℤ → ℤ
given_or old none = old
given_or old (some n) = n

-- The step of a handler, if it is defined.
unfoldable pub build_handler :
    Outside → List FuncDef → Text → Option StepDef → Option Step → Result (Option Step)
unfolding build_step
build_handler out fs name none old = ok old
build_handler out fs name (some d) old =
    build_step out fs (record d { name = name }) >>= λ s. ok (some s)

-- `buildHandlers`
unfoldable pub build_handlers : Outside → Definition → Dag → Result Dag
unfolding build_handler
build_handlers out d dag = do
  exit ← build_handler out d.functions (ascii "onExit") d.handler_on.exit dag.handler_on.exit
  success ←
      build_handler out d.functions (ascii "onSuccess") d.handler_on.success dag.handler_on.success
  failure ←
      build_handler out d.functions (ascii "onFailure") d.handler_on.failure dag.handler_on.failure
  cancel ←
      build_handler out d.functions (ascii "onCancel") d.handler_on.cancel dag.handler_on.cancel
  ok (record dag {
    handler_on = record { exit = exit; success = success; failure = failure; cancel = cancel };
  })

-- `buildPrecondition`
unfoldable pub build_precondition : Outside → Definition → Dag → Result Dag
unfolding parse_precondition
build_precondition out d dag = do
  conditions ← parse_precondition out d.preconditions
  condition ← parse_precondition out d.precondition
  ok (record dag { preconditions = conditions ++ condition })

-- `builderEntry`
pub record BuilderEntry : Type 0 where
  pub metadata : Bool
  pub name : Text
  pub fn : Dag → Result Dag

abbrev always : Text → (Dag → Result Dag) → BuilderEntry
always name fn = record { metadata = true; name = name; fn = fn }

abbrev in_full : Text → (Dag → Result Dag) → BuilderEntry
in_full name fn = record { metadata = false; name = name; fn = fn }

-- What becomes of the workflow and the errors where a builder ends. The workflow is not returned
-- behind an error, so what a builder has set before it fails is left out.
abbrev pub collect : Text → Result Dag → Dag → List BuildErr → Result (Dag × List BuildErr)
collect name (ok dag') dag errs = ok (dag', errs)
collect name (err e) dag errs = ok (dag, errs ++ wrapped name null e ∷ [])
collect name panic dag errs = panic

-- The loop of `build` over the registry.
unfoldable pub run_entries :
    (only_metadata : Bool) → List BuilderEntry → Dag × List BuildErr → Result (Dag × List BuildErr)
run_entries only [] s = ok s
run_entries only (e ∷ es) (dag, errs) =
    (if not e.metadata && only then ok (dag, errs) else collect e.name (e.fn dag) dag errs)
    >>= run_entries only es

-- What `build` returns.
pub data Build : Type 0 where
  builds : Dag → Build
  fails : List BuildErr → Build
  panics : Build

abbrev pub returned : Dag → List BuildErr → Build
returned dag [] = builds dag
returned dag (e ∷ errs) = fails (e ∷ errs)

abbrev pub with_functions : Result (Unit {0}) → Dag → List BuildErr → Build
with_functions (ok u) dag errs = returned dag errs
with_functions (err e) dag errs = returned dag (errs ++ e ∷ [])
with_functions panic dag errs = panics

abbrev pub end_build :
    (only_metadata : Bool) → Result (Unit {0}) → Result (Dag × List BuildErr) → Build
end_build true functions (ok (dag, errs)) = returned dag errs
end_build false functions (ok (dag, errs)) = with_functions functions dag errs
end_build only functions (err e) = fails (e ∷ [])
end_build only functions panic = panics

module _ (out : Outside) (world : Loading) (dec : Decoder) (no_eval : Bool) where
  -- `builderRegistry`, with the builders of one assignment written out.
  unfoldable pub builders : Definition → List BuilderEntry
  unfolding build_envs build_schedule build_dotenv build_steps build_handlers build_precondition
      build_mail_config
  builders d =
      always (ascii "env") (build_envs out world no_eval d.env)
      ∷ always (ascii "schedule") (λ dag. build_schedule out d.schedule >>= λ r.
          ok (record dag {
            schedule = r.start;
            stop_schedule = r.stop;
            restart_schedule = r.restart;
          }))
      ∷ always (ascii "skipIfSuccessful")
          (λ dag. ok (record dag { skip_if_successful = d.skip_if_successful }))
      ∷ always (ascii "params") (world.build_params d.params)
      ∷ in_full (ascii "dotenv") (build_dotenv out world no_eval d.dotenv)
      ∷ in_full (ascii "mailOn")
          (λ dag. ok (record dag { mail_on = mail_on d.mail_on dag.mail_on }))
      ∷ in_full (ascii "steps") (λ dag. build_steps out dec d.functions d.steps >>= λ steps.
          ok (record dag { steps = dag.steps ++ steps }))
      ∷ in_full (ascii "logDir") (λ dag. ok (record dag { log_dir = d.log_dir }))
      ∷ in_full (ascii "handlers") (build_handlers out d)
      ∷ in_full (ascii "smtpConfig") (λ dag. ok (record dag {
        smtp = some (record {
          host = d.smtp.host;
          port = d.smtp.port;
          username = d.smtp.username;
          password = d.smtp.password;
        });
      }))
      ∷ in_full (ascii "errMailConfig")
          (λ dag. ok (record dag { error_mail = some (build_mail_config d.error_mail) }))
      ∷ in_full (ascii "infoMailConfig")
          (λ dag. ok (record dag { info_mail = some (build_mail_config d.info_mail) }))
      ∷ in_full (ascii "maxHistoryRetentionDays") (λ dag. ok (record dag {
        hist_retention_days = given_or dag.hist_retention_days d.hist_retention_days;
      }))
      ∷ in_full (ascii "maxCleanUpTime") (λ dag. ok (record dag {
        max_clean_up_time = seconds_or dag.max_clean_up_time d.max_clean_up_time_sec;
      }))
      ∷ in_full (ascii "preconditions") (build_precondition out d)
      ∷ []

  -- The workflow before the builders.
  unfoldable pub first_dag : Text → Definition → Dag
  unfolding parse_tags
  first_dag file d = record zero_dag {
    location = file;
    name = d.name;
    group = d.group;
    description = d.description;
    timeout = seconds d.timeout_sec;
    delay = seconds d.delay_sec;
    restart_wait = seconds d.restart_wait_sec;
    tags = parse_tags out d.tags;
    max_active_runs = d.max_active_runs;
  }

  -- `build`
  unfoldable pub build : (only_metadata : Bool) → (file : Text) → Definition → Build
  unfolding builders first_dag run_entries assert_functions
  build only file d =
      end_build only (assert_functions [] d.functions)
        (run_entries only (builders d) (first_dag file d, []))
