-- ===== src/Digraph/Dag.antt =====
-- The types of internal/digraph/dag.go, and `setup`, `setupSteps` and `setupHandlers`. A duration is
-- its nanoseconds; `filepath.Dir` is a parameter.
use light_soar.Prelude.{
  ℤ, pos, is_zero_int, Bool, Option, none, some, List, [], map, if◌then◌else◌, any, Text, text_eq,
}
use light_soar.Digraph.Step.{Step, Condition}
use light_soar.Digraph.Step
use light_soar.Digraph.Builder.Schedules.{Schedule}

pub record HandlerOn : Type 0 where
  pub failure : Option Step
  pub success : Option Step
  pub cancel : Option Step
  pub exit : Option Step

pub record MailOn : Type 0 where
  pub failure : Bool
  pub success : Bool

pub record SmtpConfig : Type 0 where
  pub host : Text
  pub port : Text
  pub username : Text
  pub password : Text

pub record MailConfig : Type 0 where
  pub from : Text
  pub to : Text
  pub prefix : Text
  pub attach_logs : Bool

pub record Dag : Type 0 where
  pub location : Text
  pub group : Text
  pub name : Text
  pub dotenv : List Text
  pub tags : List Text
  pub description : Text
  pub schedule : List Schedule
  pub stop_schedule : List Schedule
  pub restart_schedule : List Schedule
  pub skip_if_successful : Bool
  pub env : List Text
  pub log_dir : Text
  pub default_params : Text
  pub params : List Text
  pub steps : List Step
  pub handler_on : HandlerOn
  pub preconditions : List Condition
  pub smtp : Option SmtpConfig
  pub error_mail : Option MailConfig
  pub info_mail : Option MailConfig
  pub mail_on : Option MailOn
  pub timeout : ℤ
  pub delay : ℤ
  pub restart_wait : ℤ
  pub max_active_runs : ℤ
  pub max_clean_up_time : ℤ
  pub hist_retention_days : ℤ

abbrev pub no_handlers : HandlerOn
no_handlers = record { failure = none; success = none; cancel = none; exit = none }

-- `DAG{}`
abbrev pub zero_dag : Dag
zero_dag = record {
  location = [];
  group = [];
  name = [];
  dotenv = [];
  tags = [];
  description = [];
  schedule = [];
  stop_schedule = [];
  restart_schedule = [];
  skip_if_successful = Bool.false;
  env = [];
  log_dir = [];
  default_params = [];
  params = [];
  steps = [];
  handler_on = no_handlers;
  preconditions = [];
  smtp = none;
  error_mail = none;
  info_mail = none;
  mail_on = none;
  timeout = pos 0;
  delay = pos 0;
  restart_wait = pos 0;
  max_active_runs = pos 0;
  max_clean_up_time = pos 0;
  hist_retention_days = pos 0;
}

-- `HasTag`
unfoldable pub has_tag : Dag → Text → Bool
unfolding text_eq
has_tag d tag = any (λ t. text_eq t tag) d.tags

abbrev default_if_zero : ℤ → ℤ → ℤ
default_if_zero z default = if is_zero_int z then default else z

abbrev setup_handler : Text → Option Step → Option Step
setup_handler dir none = none
setup_handler dir (some s) = some (Step.setup s dir)

-- `setup`, given the folder of the file.
unfoldable pub setup : Text → Dag → Dag
unfolding Step.setup
setup dir d = record d {
  hist_retention_days = default_if_zero d.hist_retention_days (pos 30);
  max_clean_up_time = default_if_zero d.max_clean_up_time (pos 60_000_000_000);
  steps = map (λ s. Step.setup s dir) d.steps;
  handler_on = record {
    failure = setup_handler dir d.handler_on.failure;
    success = setup_handler dir d.handler_on.success;
    cancel = setup_handler dir d.handler_on.cancel;
    exit = setup_handler dir d.handler_on.exit;
  };
}
