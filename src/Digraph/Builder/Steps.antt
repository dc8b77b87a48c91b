-- ===== src/Digraph/Builder/Steps.antt =====
-- `buildStep` with `assertStepDef` and `parseFuncCall`, `buildSteps`, and the handlers.
use light_soar.Prelude.{
  Bool, true, false, ◌&&◌, Option, none, some, List, [], ◌∷◌, if◌then◌else◌, map, Text, ascii,
  text_eq,
}
use light_soar.Command.Defs.{join, split_from, has_prefix}
use light_soar.Digraph.Value.{Value, null, str, arr, obj, Values, Entries, is_null}
use light_soar.Digraph.Step.{Step, zero_step}
use light_soar.Digraph.Builder.Result.{
  Outside, wrapped, Result, ok, err, ◌>>=◌, name_error, or_error, step_name_required,
  step_command_is_required, decode_error, steps_must_be_array_or_map,
}
use light_soar.Digraph.Builder.Fields.{
  ContinueOnDef, RetryPolicyDef, RepeatPolicyDef, build_continue_on, build_retry_policy,
  build_repeat_policy, build_depends, build_signal_on_stop, build_sub_workflow,
}
use light_soar.Digraph.Builder.Preconditions.{build_step_precondition}
use light_soar.Digraph.Builder.Commands.{
  build_command, build_executor, FuncDef, CallFuncDef, find_function, assert_call, call_args,
}

pub record StepDef : Type 0 where
  pub name : Text
  pub description : Text
  pub dir : Text
  pub executor : Value
  pub command : Value
  pub shell : Text
  pub script : Text
  pub stdout : Text
  pub stderr : Text
  pub output : Text
  pub depends : Value
  pub continue_on : Option ContinueOnDef
  pub retry_policy : Option RetryPolicyDef
  pub repeat_policy : Option RepeatPolicyDef
  pub mail_on_error : Bool
  pub precondition : Value
  pub preconditions : Value
  pub signal_on_stop : Option Text
  pub call : Option CallFuncDef
  pub run : Text
  pub params : Text

abbrev is_none {ℓ} : {A : Type ℓ} → Option A → Bool
is_none none = true
is_none (some a) = false

-- Nothing that the step could run.
unfoldable pub runs_nothing : StepDef → Bool
unfolding text_eq
runs_nothing d =
    is_null d.command
    && is_null d.executor
    && text_eq d.script []
    && is_none d.call
    && text_eq d.run []

-- `assertStepDef`
unfoldable pub assert_step_def : StepDef → List FuncDef → Result (Unit {0})
unfolding text_eq runs_nothing assert_call
assert_step_def d fs =
    if text_eq d.name []
    then err (wrapped (ascii "name") (str d.name) step_name_required)
    else if runs_nothing d
    then err step_command_is_required
    else assert_call d.call fs

-- `strings.ReplaceAll`, for an old text that is not empty.
abbrev replace_all : Text → Text → Text → Text
replace_all s old new = join new (split_from old 0 [] s)

-- `assignValues`
unfoldable pub assign_values : Text → List (Text × Text) → Text
unfolding join split_from has_prefix
assign_values command [] = command
assign_values command ((k, v) ∷ params) = assign_values (replace_all command (b'$' ∷ k) v) params

-- `parseFuncCall`
unfoldable pub parse_func_call : Outside → Option CallFuncDef → List FuncDef → Step → Result Step
unfolding call_args find_function assign_values
parse_func_call out none fs step = ok step
parse_func_call out (some call) fs step = do
  args ← call_args out call.args
  let f = find_function call.function fs
  ok (record step {
    args = map (λ (a : Text × Text). a.1) args;
    command = out.drop_params f.command;
    cmd_with_args = assign_values f.command args;
  })

unfoldable pub first_step : StepDef → Step
first_step d = record zero_step {
  name = d.name;
  description = d.description;
  shell = d.shell;
  script = d.script;
  stdout = d.stdout;
  stderr = d.stderr;
  output = d.output;
  dir = d.dir;
  mail_on_error = d.mail_on_error;
}

-- `stepBuilderRegistry`, in order, with the name that goes into an error.
unfoldable pub step_builders : Outside → StepDef → List (Text × (Step → Result Step))
step_builders out d =
    (ascii "executor", build_executor d.executor)
    ∷ (ascii "command", build_command out d.command)
    ∷ (ascii "depends", build_depends d.depends)
    ∷ (ascii "subworkflow", build_sub_workflow d.run d.params)
    ∷ (ascii "continueOn", build_continue_on d.continue_on)
    ∷ (ascii "retryPolicy", build_retry_policy d.retry_policy)
    ∷ (ascii "repeatPolicy", build_repeat_policy d.repeat_policy)
    ∷ (ascii "signalOnStop", build_signal_on_stop out d.signal_on_stop)
    ∷ (ascii "precondition", build_step_precondition out d.preconditions d.precondition)
    ∷ []

unfoldable pub run_builders : List (Text × (Step → Result Step)) → Step → Result Step
run_builders [] step = ok step
run_builders ((name, build) ∷ bs) step = name_error name (build step) >>= run_builders bs

-- `buildStep`
unfoldable pub build_step : Outside → List FuncDef → StepDef → Result Step
unfolding assert_step_def parse_func_call first_step step_builders run_builders
build_step out fs d = do
  _ ← assert_step_def d fs
  step ← parse_func_call out d.call fs (first_step d)
  run_builders (step_builders out d) step

unfoldable pub build_all : Outside → List FuncDef → List StepDef → Result (List Step)
unfolding build_step
build_all out fs [] = ok []
build_all out fs (d ∷ ds) = do
  step ← build_step out fs d
  steps ← build_all out fs ds
  ok (step ∷ steps)

-- What `mapstructure` decodes; the entries of a map stand in the order of a `range`.
pub record Decoder : Type 0 where
  pub decode_array : Values → Option (List StepDef)
  pub decode_map : Entries → Option (List (Text × StepDef))

abbrev named_steps : List (Text × StepDef) → List StepDef
named_steps [] = []
named_steps ((name, d) ∷ ds) = record d { name = name } ∷ named_steps ds

-- `buildSteps`: the steps that it appends.
unfoldable pub build_steps : Outside → Decoder → List FuncDef → Value → Result (List Step)
unfolding build_all
build_steps out dec fs null = ok []
build_steps out dec fs (arr vs) = do
  ds ← or_error (dec.decode_array vs) (wrapped (ascii "steps") (arr vs) decode_error)
  build_all out fs ds
build_steps out dec fs (obj es) = do
  ds ← or_error (dec.decode_map es) (wrapped (ascii "steps") (obj es) decode_error)
  build_all out fs (named_steps ds)
build_steps out dec fs v = err (wrapped (ascii "steps") v steps_must_be_array_or_map)
