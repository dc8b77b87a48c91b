-- ===== src/Digraph/Step.antt =====
-- internal/digraph/step.go and the struct of internal/digraph/condition.go. A `time.Duration` is
-- its nanoseconds.
use light_soar.Prelude.{
  pos, false, none, ℤ, Bool, ◌||◌, Option, List, Text, ascii, text_eq, if◌then◌else◌, [],
}
use light_soar.Digraph.Value.{Value}
use light_soar.Digraph.Variables.{SyncMap}

pub record Condition : Type 0 where
  pub command : Text
  pub condition : Text
  pub expected : Text

pub record SubWorkflow : Type 0 where
  pub name : Text
  pub params : Text

-- The entries of `Config` stand in the order in which they were put; a key may stand more than once,
-- and the last entry counts.
pub record ExecutorConfig : Type 0 where
  pub type : Text
  pub config : List (Text × Value)

pub record RetryPolicy : Type 0 where
  pub limit : ℤ
  pub interval : ℤ
  pub limit_str : Text
  pub interval_sec_str : Text

pub record RepeatPolicy : Type 0 where
  pub repeat : Bool
  pub interval : ℤ

pub record ContinueOn : Type 0 where
  pub failure : Bool
  pub skipped : Bool
  pub exit_code : List ℤ
  pub output : List Text
  pub mark_success : Bool

pub record Step : Type 0 where
  pub name : Text
  pub description : Text
  pub shell : Text
  pub output_variables : Option SyncMap
  pub dir : Text
  pub executor_config : ExecutorConfig
  pub cmd_with_args : Text
  pub cmd_args_sys : Text
  pub command : Text
  pub shell_cmd_args : Text
  pub script : Text
  pub args : List Text
  pub stdout : Text
  pub stderr : Text
  pub output : Text
  pub depends : List Text
  pub continue_on : ContinueOn
  pub retry_policy : RetryPolicy
  pub repeat_policy : RepeatPolicy
  pub mail_on_error : Bool
  pub preconditions : List Condition
  pub signal_on_stop : Text
  pub sub_workflow : Option SubWorkflow

-- `Step{}`
abbrev pub zero_step : Step
zero_step = record {
  name = [];
  description = [];
  shell = [];
  output_variables = none;
  dir = [];
  executor_config = record { type = []; config = [] };
  cmd_with_args = [];
  cmd_args_sys = [];
  command = [];
  shell_cmd_args = [];
  script = [];
  args = [];
  stdout = [];
  stderr = [];
  output = [];
  depends = [];
  continue_on = record {
    failure = false;
    skipped = false;
    exit_code = [];
    output = [];
    mark_success = false;
  };
  retry_policy = record { limit = pos 0; interval = pos 0; limit_str = []; interval_sec_str = [] };
  repeat_policy = record { repeat = false; interval = pos 0 };
  mail_on_error = false;
  preconditions = [];
  signal_on_stop = [];
  sub_workflow = none;
}

-- `Step.setup`
unfoldable pub setup : Step → Text → Step
unfolding text_eq
setup s work_dir = if text_eq s.dir [] then record s { dir = work_dir } else s

-- `ExecutorConfig.IsCommand`
unfoldable pub is_command : ExecutorConfig → Bool
is_command e = text_eq e.type [] || text_eq e.type (ascii "command")
