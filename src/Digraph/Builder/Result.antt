-- ===== src/Digraph/Builder/Result.antt =====
-- The errors of internal/digraph/errors.go, results, and what the builder takes from outside.
use light_soar.Prelude.{ℕ, ℤ, Bool, Option, Text, ◌≡◌, refl}
use light_soar.Digraph.Value.{Value}

pub data BuildErr : Type 0 where
  invalid_schedule schedule_must_be_string_or_array invalid_schedule_type
        schedule_key_must_be_string :
      BuildErr
  executor_config_must_be_string executor_type_must_be_string executor_config_value_must_be_map :
      BuildErr
  executor_has_invalid_key executor_config_must_be_string_or_map : BuildErr
  duplicate_function func_params_mismatch call_function_not_found number_of_params_mismatch :
      BuildErr
  required_parameter_not_found args_must_be_convertible : BuildErr
  step_name_required step_command_is_required step_command_is_empty : BuildErr
  step_command_must_be_array_or_string failed_to_parse_command : BuildErr
  invalid_signal invalid_type int_or_array_expected string_or_array_expected : BuildErr
  precondition_must_be_array_or_string precondition_key_must_be_string : BuildErr
  precondition_value_must_be_string precondition_has_invalid_key : BuildErr
  expected_value_is_required invalid_condition : BuildErr
  continue_on_output_must_be_string_or_array continue_on_exit_code_must_be_int_or_array : BuildErr
  depends_must_be_string_or_array steps_must_be_array_or_map decode_error : BuildErr
  invalid_param_value invalid_key_type invalid_env_value failed_to_set_env
        dotenv_must_be_string_or_array :
      BuildErr
  -- `wrapError`
  wrapped : (field : Text) → Value → BuildErr → BuildErr
  -- `fmt.Errorf("%s: %w", entry.name, err)`
  named : (name : Text) → BuildErr → BuildErr

-- A nil pointer that is dereferenced is a panic.
pub data Result {ℓ} (V : Type ℓ) : Type ℓ where
  panic : Result V
  err : (e : BuildErr) → Result V
  ok : (v : V) → Result V

infixl 5 ◌>>=◌
-- The next statement runs where there is neither a panic nor an error.
abbrev pub ◌>>=◌ {ℓ κ} : {V : Type ℓ} {W : Type κ} → Result V → (V → Result W) → Result W
panic >>= next = panic
err e >>= next = err e
ok v >>= next = next v

-- What a successful chain went through.
pub ok_of_bind {ℓ κ} :
    {V : Type ℓ} {W : Type κ} (first : Result V) (next : V → Result W) {w : W}
    → (first >>= next) ≡ ok w
    → (v : V) × (first ≡ ok v) × (next v ≡ ok w)
ok_of_bind panic next h = cc
ok_of_bind (err e) next h = cc
ok_of_bind (ok v) next h = (v, refl, h)

-- `if err != nil { return wrapError(field, value, e) }`, for an error that is replaced.
pub ok_injective {ℓ} : {A : Type ℓ} {a b : A} → ok a ≡ ok b → a ≡ b
ok_injective h = cc

abbrev pub or_error {ℓ} : {A : Type ℓ} → Option A → BuildErr → Result A
or_error Option.none e = err e
or_error (Option.some a) e = ok a

abbrev pub name_error {ℓ} : {A : Type ℓ} → Text → Result A → Result A
name_error name (ok a) = ok a
name_error name (err e) = err (named name e)
name_error name panic = panic

-- The parser of cron expressions, `unix.SignalNum` as a test, `strings.ToLower`, `fmt.Sprintf` with
-- `%v` and with `%q`, `strconv.Itoa`, and the expression of the parameters of a function.
pub record Outside : Type 0 where
  pub cron : Text → Option (ℕ → ℕ)
  pub is_signal : Text → Bool
  pub to_lower : Text → Text
  pub show : Value → Text
  pub quote : Text → Text
  pub itoa : ℤ → Text
  pub drop_params : Text → Text
