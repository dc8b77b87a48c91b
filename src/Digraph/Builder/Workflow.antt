-- ===== src/Digraph/Builder/Workflow.antt =====
-- `build` of internal/digraph/builder.go with the builders of a workflow's fields, and `loadVariables`
-- of variables.go.
use light_soar.Prelude.{
  ℕ, ℤ, Bool, true, false, Option, none, some, List, [], ◌∷◌, ◌++◌, map, if◌then◌else◌, Text, ascii,
}
use light_soar.Command.Defs.{split_from, is_space}
use light_soar.Digraph.Value.{Value, null, str, arr, obj, Values, nil, cons, Entries, end, entry}
use light_soar.Digraph.Variables.{store}
use light_soar.Digraph.Dag.{Dag}
use light_soar.Digraph.Builder.Result.{
  Outside, BuildErr, wrapped, Result, ok, err, panic, ◌>>=◌, or_error, invalid_key_type,
  invalid_env_value, failed_to_set_env, dotenv_must_be_string_or_array,
}
use light_soar.Digraph.Builder.Commands.{FuncDef, word_of}
use light_soar.Digraph.Builder.Steps.{StepDef}

pub record HandlerOnDef : Type 0 where
  pub failure : Option StepDef
  pub success : Option StepDef
  pub cancel : Option StepDef
  pub exit : Option StepDef

pub record SmtpConfigDef : Type 0 where
  pub host : Text
  pub port : Text
  pub username : Text
  pub password : Text

pub record MailConfigDef : Type 0 where
  pub from : Text
  pub to : Text
  pub prefix : Text
  pub attach_logs : Bool

pub record MailOnDef : Type 0 where
  pub failure : Bool
  pub success : Bool

pub record Definition : Type 0 where
  pub name : Text
  pub group : Text
  pub description : Text
  pub dotenv : Value
  pub schedule : Value
  pub skip_if_successful : Bool
  pub log_dir : Text
  pub env : Value
  pub handler_on : HandlerOnDef
  pub functions : List FuncDef
  pub steps : Value
  pub smtp : SmtpConfigDef
  pub mail_on : Option MailOnDef
  pub error_mail : MailConfigDef
  pub info_mail : MailConfigDef
  pub timeout_sec : ℤ
  pub delay_sec : ℤ
  pub restart_wait_sec : ℤ
  pub hist_retention_days : Option ℤ
  pub precondition : Value
  pub preconditions : Value
  pub max_active_runs : ℤ
  pub params : Value
  pub max_clean_up_time_sec : Option ℤ
  pub tags : Value

-- What the builders do outside: `EvalString` with the variables that were set before, `Setenv` as a
-- test, the order of a `range` over a map, the loading of the dotenv files, and `buildParams`.
pub record Loading : Type 0 where
  pub eval_string : List (Text × Text) → Text → Option Text
  pub can_set : Text → Text → Bool
  pub in_some_order : List (Text × Text) → List (Text × Text)
  pub load_dotenv : List Text → Option BuildErr
  pub build_params : Value → Dag → Result Dag

-- `strings.TrimSpace`
abbrev trim_left : Text → Text
trim_left [] = []
trim_left (c ∷ s) = elim (is_space c) [ true ↦ trim_left s | false ↦ c ∷ s ]

abbrev add_unless_space : ℕ → Text → Text
add_unless_space c [] = if is_space c then [] else c ∷ []
add_unless_space c (d ∷ s) = c ∷ d ∷ s

abbrev trim_right : Text → Text
trim_right [] = []
trim_right (c ∷ s) = add_unless_space c (trim_right s)

unfoldable pub trim_space : Text → Text
unfolding is_space
trim_space s = trim_right (trim_left s)

abbrev without_empty : List Text → List Text
without_empty [] = []
without_empty ([] ∷ ts) = without_empty ts
without_empty ((c ∷ t) ∷ ts) = (c ∷ t) ∷ without_empty ts

abbrev tag_words : Outside → Values → List Text
unfolding trim_space
tag_words out nil = []
tag_words out (cons v vs) = out.to_lower (trim_space (word_of out v)) ∷ tag_words out vs

-- `parseTags`
unfoldable pub parse_tags : Outside → Value → List Text
unfolding trim_space split_from tag_words
parse_tags out (str s) =
    without_empty (map (λ t. out.to_lower (trim_space t)) (split_from (ascii ",") 0 [] s))
parse_tags out (arr vs) = tag_words out vs
parse_tags out v = []

-- `parseKeyValue`
unfoldable pub parse_key_value :
    Outside → Entries → List (Text × Text) → Result (List (Text × Text))
parse_key_value out end pairs = ok pairs
parse_key_value out (entry (str k) v es) pairs =
    parse_key_value out es (pairs ++ (k, word_of out v) ∷ [])
parse_key_value out (entry k v es) pairs = err (wrapped (ascii "env") k invalid_key_type)

abbrev in_env : Value → Result (List (Text × Text)) → Result (List (Text × Text))
in_env v (ok pairs) = ok pairs
in_env v (err e) = err (wrapped (ascii "env") v e)
in_env v panic = panic

unfoldable pub key_values_of : Outside → Values → List (Text × Text) → Result (List (Text × Text))
unfolding parse_key_value
key_values_of out nil pairs = ok pairs
key_values_of out (cons (obj es) vs) pairs =
    in_env (obj es) (parse_key_value out es pairs) >>= key_values_of out vs
key_values_of out (cons v vs) pairs = key_values_of out vs pairs

unfoldable pub pairs_of : Outside → Value → Result (List (Text × Text))
unfolding parse_key_value key_values_of
pairs_of out (obj es) = in_env (obj es) (parse_key_value out es [])
pairs_of out (arr vs) = key_values_of out vs []
pairs_of out v = ok []

module _ (out : Outside) (world : Loading) (no_eval : Bool) where
  abbrev check_set : Text → Text → Result Text
  check_set k v =
      if world.can_set k v then ok v else err (wrapped (ascii "env") (str k) failed_to_set_env)

  -- The value of a variable, behind those that were set.
  abbrev variable : List (Text × Text) → Text → Text → Result Text
  variable vars k v =
      if no_eval
      then ok v
      else or_error (world.eval_string vars v) (wrapped (ascii "env") (str v) invalid_env_value)
        >>= check_set k

  -- The loop of `loadVariables`.
  unfoldable pub set_variables :
      List (Text × Text) → List (Text × Text) → Result (List (Text × Text))
  unfolding store
  set_variables [] vars = ok vars
  set_variables ((k, v) ∷ pairs) vars =
      variable vars k v >>= λ w. set_variables pairs (store vars k w)

  -- `loadVariables`
  unfoldable pub load_variables : Value → Result (List (Text × Text))
  unfolding pairs_of set_variables
  load_variables v = pairs_of out v >>= λ pairs. set_variables pairs []

  -- `buildEnvs`
  unfoldable pub build_envs : Value → Dag → Result Dag
  unfolding load_variables
  build_envs v dag = do
    vars ← load_variables v
    ok (record dag {
      env = dag.env ++ map (λ (x : Text × Text). x.0 ++ b'=' ∷ x.1) (world.in_some_order vars);
    })

  abbrev loaded : Option BuildErr → Dag → Result Dag
  loaded none dag = ok dag
  loaded (some e) dag = err e

  abbrev load_files : Dag → Result Dag
  load_files dag = if no_eval then ok dag else loaded (world.load_dotenv dag.dotenv) dag

  -- The loop of `buildDotenv` over an array.
  unfoldable pub dotenv_elements : Values → Result (List Text)
  dotenv_elements nil = ok []
  dotenv_elements (cons (str s) vs) = dotenv_elements vs >>= λ ss. ok (s ∷ ss)
  dotenv_elements (cons v vs) = err (wrapped (ascii "dotenv") v dotenv_must_be_string_or_array)

  -- `buildDotenv`
  unfoldable pub build_dotenv : Value → Dag → Result Dag
  unfolding dotenv_elements
  build_dotenv null dag = ok dag
  build_dotenv (str s) dag = load_files (record dag { dotenv = dag.dotenv ++ s ∷ [] })
  build_dotenv (arr vs) dag = do
    ss ← dotenv_elements vs
    load_files (record dag { dotenv = dag.dotenv ++ ss })
  build_dotenv v dag = err (wrapped (ascii "dotenv") v dotenv_must_be_string_or_array)
