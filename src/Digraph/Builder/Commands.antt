-- ===== src/Digraph/Builder/Commands.antt =====
-- `buildCommand` (internal/digraph/command.go), `buildExecutor` and the functions of a workflow
-- (internal/digraph/func.go and assert.go).
use light_soar.Prelude.{
  ◌==◌, Bool, true, false, ◌&&◌, Option, none, some, List, [], ◌∷◌, ◌++◌, if◌then◌else◌, any,
  length, Text, ascii, text_eq,
}
use light_soar.Command.Defs.{
  Split, command_is_empty, panics, join_command_args, split_command, split_from, has_prefix,
  is_space,
}
use light_soar.Digraph.Value.{
  Value, null, str, int, arr, obj, Values, nil, cons, Entries, end, entry,
}
use light_soar.Digraph.Step.{Step, ExecutorConfig}
use light_soar.Digraph.Builder.Result.{
  Outside, BuildErr, wrapped, Result, ok, err, panic, ◌>>=◌, step_command_is_empty,
  step_command_must_be_array_or_string, failed_to_parse_command, executor_config_must_be_string,
  executor_type_must_be_string, executor_config_value_must_be_map, executor_has_invalid_key,
  executor_config_must_be_string_or_map, duplicate_function, func_params_mismatch,
  call_function_not_found, number_of_params_mismatch, required_parameter_not_found,
  args_must_be_convertible,
}

abbrev pub with_command : Step → Split → Value → Result Step
with_command step (Split.ok command args) v = ok (record step { command = command; args = args })
with_command step command_is_empty v = err (wrapped (ascii "command") v failed_to_parse_command)
with_command step panics v = panic

-- An element of the array as a text.
abbrev pub word_of : Outside → Value → Text
word_of out (str s) = s
word_of out v = out.show v

-- The loop over the elements: the first that is not empty is the command, and all behind it are
-- arguments.
unfoldable pub command_words :
    Outside → Values → (command : Text) → (args : List Text) → Text × List Text
command_words out nil command args = (command, args)
command_words out (cons v vs) [] args = command_words out vs (word_of out v) args
command_words out (cons v vs) (c ∷ cs) args =
    command_words out vs (c ∷ cs) (args ++ word_of out v ∷ [])

-- The loop that quotes the arguments, which are still those of the step before.
abbrev pub quoted : Outside → List Text → Text
quoted out [] = []
quoted out (a ∷ []) = out.quote a
quoted out (a ∷ b ∷ more) = out.quote a ++ b' ' ∷ quoted out (b ∷ more)

-- `buildCommand`
unfoldable pub build_command : Outside → Value → Step → Result Step
unfolding split_command command_words join_command_args text_eq
build_command out null step = ok step
build_command out (str s) step =
    if text_eq s []
    then err (wrapped (ascii "command") (str s) step_command_is_empty)
    else with_command (record step { cmd_with_args = s }) (split_command s) (str s)
build_command out (arr vs) step =
    let (command, args) = command_words out vs [] [] in
    ok (record step {
      command = command;
      args = args;
      cmd_with_args = command ++ b' ' ∷ quoted out step.args;
      cmd_args_sys = join_command_args command args;
    })
build_command out v step = err (wrapped (ascii "command") v step_command_must_be_array_or_string)

-- `convertMap`, as the test that all keys of the maps below are texts. It does not look into arrays.
unfoldable mutual
  pub convertible : Value → Bool
  convertible (obj es) = all_convertible es
  convertible _ = true

  pub all_convertible : Entries → Bool
  all_convertible end = true
  all_convertible (entry (str k) v es) = convertible v && all_convertible es
  all_convertible (entry k v es) = false

unfoldable pub add_config : Entries → List (Text × Value) → Result (List (Text × Value))
add_config end config = ok config
add_config (entry (str k) v es) config = add_config es (config ++ (k, v) ∷ [])
add_config (entry k v es) config =
    err (wrapped (ascii "executor.config") k executor_config_must_be_string)

abbrev set_config : Value → ExecutorConfig → Result ExecutorConfig
set_config (obj es) e = add_config es e.config >>= λ config. ok (record e { config = config })
set_config v e = err (wrapped (ascii "executor.config") v executor_config_value_must_be_map)

abbrev set_type : Value → ExecutorConfig → Result ExecutorConfig
set_type (str t) e = ok (record e { type = t })
set_type v e = err (wrapped (ascii "executor.type") v executor_type_must_be_string)

-- The switch on a key of the executor.
unfoldable pub set_executor_key : Text → Value → ExecutorConfig → Result ExecutorConfig
unfolding add_config text_eq
set_executor_key key v e =
    if text_eq key (ascii "type")
    then set_type v e
    else if text_eq key (ascii "config")
    then set_config v e
    else err (wrapped (ascii "executor.config") (str key) executor_has_invalid_key)

unfoldable pub set_executor_keys : Entries → ExecutorConfig → Result ExecutorConfig
unfolding set_executor_key
set_executor_keys end e = ok e
set_executor_keys (entry (str key) v es) e = set_executor_key key v e >>= set_executor_keys es
set_executor_keys (entry k v es) e =
    err (wrapped (ascii "executor.config") k executor_config_must_be_string)

abbrev pub config_convertible : List (Text × Value) → Bool
config_convertible [] = true
config_convertible ((k, v) ∷ config) = convertible v && config_convertible config

unfoldable pub check_config : Step → ExecutorConfig → Result Step
check_config step e =
    if config_convertible e.config
    then ok (record step { executor_config = e })
    else err executor_config_must_be_string

-- `buildExecutor`
unfoldable pub build_executor : Value → Step → Result Step
unfolding set_executor_keys convertible
build_executor null step = ok step
build_executor (str t) step = check_config step (record step.executor_config { type = t })
build_executor (obj es) step = set_executor_keys es step.executor_config >>= check_config step
build_executor v step = err (wrapped (ascii "executor") v executor_config_must_be_string_or_map)

pub record FuncDef : Type 0 where
  pub name : Text
  pub params : Text
  pub command : Text

-- `Function` and `Args`, whose entries stand in the order of a `range`.
pub record CallFuncDef : Type 0 where
  pub function : Text
  pub args : List (Text × Value)

-- `strings.Fields`
unfoldable pub fields_from : Text → Text → List Text
unfolding is_space
fields_from [] [] = []
fields_from (w ∷ word) [] = (w ∷ word) ∷ []
fields_from word (c ∷ s) = elim (is_space c) [
  | false ↦ fields_from (word ++ c ∷ []) s
  | true ↦ elim word [ [] ↦ fields_from [] s | w ∷ ws ↦ (w ∷ ws) ∷ fields_from [] s ]
]

abbrev pub names_after_dollar : List Text → List Text
names_after_dollar [] = []
names_after_dollar ([] ∷ ws) = names_after_dollar ws
names_after_dollar ((c ∷ w) ∷ ws) =
    if c == b'$' then w ∷ names_after_dollar ws else names_after_dollar ws

-- `extractParamNames`
unfoldable pub extract_param_names : Text → List Text
unfolding fields_from
extract_param_names command = names_after_dollar (fields_from [] command)

-- `strings.Split(params, " ")`
abbrev pub split_spaces : Text → List Text
split_spaces s = split_from (ascii " ") 0 [] s

unfoldable pub same_names : List Text → List Text → Bool
unfolding text_eq
same_names [] [] = true
same_names (a ∷ names) (b ∷ others) = text_eq a b && same_names names others
same_names _ _ = false

abbrev in_function : Text → BuildErr → BuildErr
in_function name = wrapped (ascii "function") (str name)

-- `assertFunctions`, with the names that were met.
unfoldable pub assert_functions : List Text → List FuncDef → Result (Unit {0})
unfolding same_names extract_param_names split_from text_eq has_prefix
assert_functions seen [] = ok tt
assert_functions seen (f ∷ fs) =
    let rest = assert_functions (f.name ∷ seen) fs in
    if any (text_eq f.name) seen
    then err (in_function f.name duplicate_function)
    else if same_names (split_spaces f.params) (extract_param_names f.command)
    then rest
    else err (in_function f.name func_params_mismatch)

unfoldable pub find_function : Text → List FuncDef → FuncDef
unfolding text_eq
find_function name [] = record { name = []; params = []; command = [] }
find_function name (f ∷ fs) = if text_eq f.name name then f else find_function name fs

abbrev pub has_arg : List (Text × Value) → Text → Bool
has_arg args p = any (λ (a : Text × Value). text_eq a.0 p) args

unfoldable pub check_params : Text → List (Text × Value) → List Text → Result (Unit {0})
unfolding text_eq
check_params name args [] = ok tt
check_params name args (p ∷ ps) =
    if has_arg args p
    then check_params name args ps
    else err (in_function name required_parameter_not_found)

-- The validation of a call in `assertStepDef`.
unfoldable pub assert_call : Option CallFuncDef → List FuncDef → Result (Unit {0})
unfolding find_function check_params split_from has_prefix
assert_call none fs = ok tt
assert_call (some call) fs =
    let f = find_function call.function fs in
    let names = split_spaces f.params in
    if text_eq f.name []
    then err (in_function call.function call_function_not_found)
    else if length call.args == length names
    then check_params call.function call.args names
    else err (in_function call.function number_of_params_mismatch)

-- The loop over the arguments of a call.
unfoldable pub call_args : Outside → List (Text × Value) → Result (List (Text × Text))
call_args out [] = ok []
call_args out ((k, str s) ∷ more) = call_args out more >>= λ rest. ok ((k, s) ∷ rest)
call_args out ((k, int i) ∷ more) = call_args out more >>= λ rest. ok ((k, out.itoa i) ∷ rest)
call_args out ((k, v) ∷ more) = err args_must_be_convertible
