-- ===== src/Digraph/Builder/Samples.antt =====
-- Concrete definitions of steps, conditions and schedules.
use light_soar.Prelude.{
  pos, ◌+◌, true, false, none, some, [], ◌∷◌, ◌++◌, All, Text, ascii, text_eq, ◌≡◌, refl,
}
use light_soar.Command.Defs.{split_command, join_command_args}
use light_soar.Digraph.Value.{Value, null, str, int, arr, obj, nil, cons, end, entry}
use light_soar.Digraph.Step.{Step, Condition, zero_step}
use light_soar.Digraph.Builder.Result.{Outside, ok, err, panic, wrapped, func_params_mismatch}
use light_soar.Digraph.Builder.Fields.{
  atoi, build_depends, build_sub_workflow, build_continue_on, build_retry_policy,
  build_repeat_policy, build_signal_on_stop,
}
use light_soar.Digraph.Builder.Preconditions.{
  build_step_precondition, parse_precondition, CanEval, parse_precondition-CanEval,
}
use light_soar.Digraph.Builder.Schedules.{
  Schedules, Schedule, build_schedule, schedule_slices, target_of,
}
use light_soar.Digraph.Builder.Commands.{FuncDef, assert_functions, build_command, build_executor}
use light_soar.Digraph.Builder.Functions.{HaveOwnNames, HasItsParams, assert_functions-HaveOwnNames}
use light_soar.Digraph.Builder.Steps.{StepDef, build_step, assert_step_def}
use light_soar.Digraph.Builder.Built.{IsBuilt, build_step-IsBuilt}

-- A parser that takes every expression for one of each minute.
abbrev pub world : Outside
world = record {
  cron = λ e. some (λ t. t + 60_000_000_000);
  is_signal = λ s. true;
  to_lower = λ s. s;
  show = λ v. [];
  quote = λ s. b'"' ∷ s ++ b'"' ∷ [];
  itoa = λ i. [];
  drop_params = λ s. s;
}

program : Unit {0}
unfolding build_step build_schedule parse_precondition build_command assert_functions split_command
    text_eq schedule_slices atoi assert_step_def target_of build_executor build_depends
    build_sub_workflow build_continue_on build_retry_policy build_repeat_policy build_signal_on_stop
    build_step_precondition
program = tt

abbrev pub step_def : StepDef
step_def = record {
  name = ascii "copy";
  description = [];
  dir = [];
  executor = null;
  command = str (ascii "cp a b");
  shell = [];
  script = [];
  stdout = [];
  stderr = [];
  output = [];
  depends = arr (cons (str (ascii "fetch")) (cons (str (ascii "unpack")) nil));
  continue_on = none;
  retry_policy = some (record { limit = int (pos 3); interval_sec = int (pos 5) });
  repeat_policy = none;
  mail_on_error = false;
  precondition = str (ascii "test -f a");
  preconditions = null;
  signal_on_stop = some (ascii "SIGINT");
  call = none;
  run = [];
  params = [];
}

abbrev copy_step : Step
copy_step = record zero_step {
  name = ascii "copy";
  cmd_with_args = ascii "cp a b";
  command = ascii "cp";
  args = ascii "a" ∷ ascii "b" ∷ [];
  depends = ascii "fetch" ∷ ascii "unpack" ∷ [];
  retry_policy = record {
    limit = pos 3;
    interval = pos 5_000_000_000;
    limit_str = [];
    interval_sec_str = [];
  };
  signal_on_stop = ascii "SIGINT";
  preconditions = record { command = ascii "test -f a"; condition = []; expected = [] } ∷ [];
}

copy_built : build_step world [] step_def ≡ ok copy_step
unfolding program
copy_built = refl

build_step-IsBuilt_example : IsBuilt step_def copy_step
build_step-IsBuilt_example = build_step-IsBuilt world [] step_def copy_step copy_built

-- The command of an array lacks its arguments in `CmdWithArgs`.
array_command :
    build_command world (arr (cons (str (ascii "cp")) (cons (str (ascii "a")) nil))) zero_step
    ≡ ok (record zero_step {
      command = ascii "cp";
      args = ascii "a" ∷ [];
      cmd_with_args = ascii "cp ";
      cmd_args_sys = join_command_args (ascii "cp") (ascii "a" ∷ []);
    })
unfolding program
array_command = refl

abbrev checked : Condition
checked = record { command = []; condition = ascii "$X"; expected = ascii "1" }

abbrev condition_map : Value
condition_map = obj (
    entry (str (ascii "condition")) (str (ascii "$X"))
      (entry (str (ascii "expected")) (str (ascii "1")) end))

checked_parsed : parse_precondition world (arr (cons condition_map nil)) ≡ ok (checked ∷ [])
unfolding program
checked_parsed = refl

parse_precondition-CanEval_example : All CanEval (checked ∷ [])
parse_precondition-CanEval_example =
    parse_precondition-CanEval world (arr (cons condition_map nil)) (checked ∷ []) checked_parsed

abbrev each_minute : Text → Schedule
each_minute e = record { expression = e; parsed = λ t. t + 60_000_000_000 }

abbrev day : Value
day = obj (
    entry (str (ascii "start"))
      (arr (cons (str (ascii "0 1 * * *")) (cons (str (ascii "0 2 * * *")) nil)))
      (entry (str (ascii "stop")) (str (ascii "0 3 * * *")) end))

abbrev day_schedules : Schedules
day_schedules = record {
  start = each_minute (ascii "0 1 * * *") ∷ each_minute (ascii "0 2 * * *") ∷ [];
  stop = each_minute (ascii "0 3 * * *") ∷ [];
  restart = [];
}

day_built : build_schedule world day ≡ ok day_schedules
unfolding program
day_built = refl

-- A key that is none of the three.
panics_for_key :
    build_schedule world (obj (entry (str (ascii "pause")) (str (ascii "* * * * *")) end)) ≡ panic
unfolding program
panics_for_key = refl

abbrev greet : FuncDef
greet = record { name = ascii "greet"; params = ascii "who"; command = ascii "echo $who" }

greet_accepted : assert_functions [] (greet ∷ []) ≡ ok tt
unfolding program
greet_accepted = refl

assert_functions-HaveOwnNames_example : HaveOwnNames (greet ∷ []) × All HasItsParams (greet ∷ [])
assert_functions-HaveOwnNames_example = assert_functions-HaveOwnNames (greet ∷ []) tt greet_accepted

-- A function without parameters.
no_params :
    assert_functions [] (record { name = ascii "now"; params = []; command = ascii "date" } ∷ [])
    ≡ err (wrapped (ascii "function") (str (ascii "now")) func_params_mismatch)
unfolding program
no_params = refl
