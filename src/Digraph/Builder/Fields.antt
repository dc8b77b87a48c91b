-- ===== src/Digraph/Builder/Fields.antt =====
-- The fields of a step that are built on their own.
use light_soar.Prelude.{
  ℕ, zero, suc, ◌+◌, ◌-◌, ◌*◌, leb, ◌==◌, ℤ, pos, negsuc, Bool, true, false, ◌&&◌, Option, none,
  some, List, [], ◌∷◌, ◌++◌, if◌then◌else◌, all, Text, ascii, text_eq,
}
use light_soar.Digraph.Value.{Value, null, str, int, arr, Values, nil, cons}
use light_soar.Digraph.Step.{Step, RetryPolicy}
use light_soar.Digraph.Builder.Result.{
  Outside, wrapped, Result, ok, err, ◌>>=◌, or_error, invalid_type,
  continue_on_exit_code_must_be_int_or_array, continue_on_output_must_be_string_or_array,
  depends_must_be_string_or_array, invalid_signal,
}

-- `strconv.Atoi`, for an `int` of 64 bits.
abbrev is_digit : ℕ → Bool
is_digit c = leb b'0' c && leb c b'9'

unfoldable pub decimal : ℕ → Text → ℕ
decimal n [] = n
decimal n (c ∷ s) = decimal (n * 10 + (c - b'0')) s

abbrev digits : Text → Option ℕ
digits [] = none
digits (c ∷ s) = if all is_digit (c ∷ s) then some (decimal 0 (c ∷ s)) else none

abbrev signed : Bool → Option ℕ → Option ℤ
signed negative none = none
signed false (some n) = if leb n 9_223_372_036_854_775_807 then some (pos n) else none
signed true (some zero) = some (pos zero)
signed true (some (suc n)) = if leb n 9_223_372_036_854_775_807 then some (negsuc n) else none

unfoldable pub atoi : Text → Option ℤ
unfolding decimal
atoi [] = none
atoi (c ∷ s) =
    if c == b'-'
    then signed true (digits s)
    else if c == b'+'
    then signed false (digits s)
    else signed false (digits (c ∷ s))

-- The loops over arrays, which stop at the first element of another type.
unfoldable pub int_elements : Values → Option (List ℤ)
int_elements nil = some []
int_elements (cons (int i) vs) = elim (int_elements vs) [ none ↦ none | some is ↦ some (i ∷ is) ]
int_elements (cons _ vs) = none

unfoldable pub string_elements : Values → Option (List Text)
string_elements nil = some []
string_elements (cons (str s) vs) = elim (string_elements vs) [
  | none ↦ none
  | some ss ↦ some (s ∷ ss)
]
string_elements (cons _ vs) = none

-- `parseIntOrArray`
unfoldable pub parse_int_or_array : Value → Option (List ℤ)
unfolding atoi int_elements
parse_int_or_array null = some []
parse_int_or_array (int i) = some (i ∷ [])
parse_int_or_array (arr vs) = int_elements vs
parse_int_or_array (str s) = elim (atoi s) [ none ↦ none | some i ↦ some (i ∷ []) ]
parse_int_or_array _ = none

-- `parseStringOrArray`
unfoldable pub parse_string_or_array : Value → Option (List Text)
unfolding string_elements
parse_string_or_array null = some []
parse_string_or_array (str s) = some (s ∷ [])
parse_string_or_array (arr vs) = string_elements vs
parse_string_or_array _ = none

pub record ContinueOnDef : Type 0 where
  pub failure : Bool
  pub skipped : Bool
  pub exit_code : Value
  pub output : Value
  pub mark_success : Bool

pub record RetryPolicyDef : Type 0 where
  pub limit : Value
  pub interval_sec : Value

pub record RepeatPolicyDef : Type 0 where
  pub repeat : Bool
  pub interval_sec : ℤ

-- `buildContinueOn`
unfoldable pub build_continue_on : Option ContinueOnDef → Step → Result Step
unfolding parse_int_or_array parse_string_or_array
build_continue_on none step = ok step
build_continue_on (some d) step = do
  codes ←
      or_error (parse_int_or_array d.exit_code) (
        wrapped (ascii "continueOn.exitCode") d.exit_code
          continue_on_exit_code_must_be_int_or_array)
  output ←
      or_error (parse_string_or_array d.output)
        (wrapped (ascii "continueOn.stdout") d.output continue_on_output_must_be_string_or_array)
  ok (record step {
    continue_on = record {
      failure = d.failure;
      skipped = d.skipped;
      exit_code = codes;
      output = output;
      mark_success = d.mark_success;
    };
  })

-- `time.Second * time.Duration(v)`
abbrev pub seconds : ℤ → ℤ
seconds (pos n) = pos (n * 1_000_000_000)
seconds (negsuc n) = negsuc (n * 1_000_000_000 + 999_999_999)

-- The two switches of `buildRetryPolicy`.
abbrev pub set_limit : Value → RetryPolicy → Result RetryPolicy
set_limit (int i) p = ok (record p { limit = i })
set_limit (str s) p = ok (record p { limit_str = s })
set_limit v p = err (wrapped (ascii "retryPolicy.Limit") v invalid_type)

abbrev pub set_interval : Value → RetryPolicy → Result RetryPolicy
set_interval (int i) p = ok (record p { interval = seconds i })
set_interval (str s) p = ok (record p { interval_sec_str = s })
set_interval v p = err (wrapped (ascii "retryPolicy.IntervalSec") v invalid_type)

-- `buildRetryPolicy`
unfoldable pub build_retry_policy : Option RetryPolicyDef → Step → Result Step
build_retry_policy none step = ok step
build_retry_policy (some d) step = do
  limited ← set_limit d.limit step.retry_policy
  policy ← set_interval d.interval_sec limited
  ok (record step { retry_policy = policy })

-- `buildRepeatPolicy`
unfoldable pub build_repeat_policy : Option RepeatPolicyDef → Step → Result Step
build_repeat_policy none step = ok step
build_repeat_policy (some d) step = ok (record step {
  repeat_policy = record { repeat = d.repeat; interval = seconds d.interval_sec };
})

-- `buildDepends`
unfoldable pub build_depends : Value → Step → Result Step
unfolding parse_string_or_array
build_depends v step = do
  deps ←
      or_error (parse_string_or_array v)
        (wrapped (ascii "depends") v depends_must_be_string_or_array)
  ok (record step { depends = deps })

-- `buildSignalOnStop`
unfoldable pub build_signal_on_stop : Outside → Option Text → Step → Result Step
build_signal_on_stop out none step = ok step
build_signal_on_stop out (some sig) step =
    if out.is_signal sig then ok (record step { signal_on_stop = sig }) else err invalid_signal

-- `buildSubWorkflow`
unfoldable pub build_sub_workflow : (run params : Text) → Step → Result Step
unfolding text_eq
build_sub_workflow run params step =
    if text_eq run []
    then ok step
    else ok (record step {
      sub_workflow = some (record { name = run; params = params });
      executor_config = record step.executor_config { type = ascii "subworkflow" };
      command = ascii "run";
      args = run ∷ params ∷ [];
      cmd_with_args = run ++ b' ' ∷ params;
    })
