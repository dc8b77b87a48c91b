-- ===== src/Digraph/Builder/Preconditions.antt =====
-- `parsePrecondition`, `buildStepPrecondition` and `Condition.Validate`
-- (internal/digraph/condition.go).
use light_soar.Prelude.{
  Bool, true, false, List, [], ◌∷◌, ◌++◌, if◌then◌else◌, All, Text, ascii, text_eq, ◌≡◌, ◌⊎◌, inl,
  inr, refl, subst, sym, arith,
}
use light_soar.Digraph.Value.{
  Value, null, str, int, bool, other, arr, obj, Values, nil, cons, Entries, end, entry,
}
use light_soar.Digraph.Step.{Condition, Step}
use light_soar.Digraph.Builder.Result.{
  Outside, BuildErr, wrapped, Result, ok, err, panic, ◌>>=◌, ok_of_bind, ok_injective,
  precondition_must_be_array_or_string, precondition_key_must_be_string,
  precondition_value_must_be_string, precondition_has_invalid_key, expected_value_is_required,
  invalid_condition,
}

abbrev pub zero_condition : Condition
zero_condition = record { command = []; condition = []; expected = [] }

abbrev pub is_set : Text → Bool
is_set [] = false
is_set (c ∷ s) = true

-- `Validate`
unfoldable pub validate : Condition → Result Condition
validate c =
    if is_set c.condition
    then (if is_set c.expected then ok c else err expected_value_is_required)
    else if is_set c.command
    then ok c
    else err invalid_condition

abbrev in_preconditions : Value → BuildErr → BuildErr
in_preconditions = wrapped (ascii "preconditions")

-- The switch on the key, for a value that is a text.
abbrev set_field : Text → Value → Text → Condition → Result Condition
set_field key k v c =
    if text_eq key (ascii "condition")
    then ok (record c { condition = v })
    else if text_eq key (ascii "expected")
    then ok (record c { expected = v })
    else if text_eq key (ascii "command")
    then ok (record c { command = v })
    else err (in_preconditions k precondition_has_invalid_key)

abbrev is_field : Text → Bool
is_field key =
    if text_eq key (ascii "condition")
    then true
    else if text_eq key (ascii "expected")
    then true
    else text_eq key (ascii "command")

unfoldable pub set_entry : Outside → Value → Value → Condition → Result Condition
unfolding text_eq
set_entry out (str key) (str v) c = set_field (out.to_lower key) (str key) v c
set_entry out (str key) v c = err (
    if is_field (out.to_lower key)
    then in_preconditions v precondition_value_must_be_string
    else in_preconditions (str key) precondition_has_invalid_key)
set_entry out k v c = err (in_preconditions k precondition_key_must_be_string)

unfoldable pub set_entries : Outside → Entries → Condition → Result Condition
unfolding set_entry
set_entries out end c = ok c
set_entries out (entry k v es) c = set_entry out k v c >>= set_entries out es

abbrev pub wrap_error : Value → Result Condition → Result (List Condition)
wrap_error v (ok c) = ok (c ∷ [])
wrap_error v (err e) = err (in_preconditions v e)
wrap_error v panic = panic

-- `parsePrecondition`
unfoldable mutual
  unfolding validate set_entries

  pub parse_precondition : Outside → Value → Result (List Condition)
  parse_precondition out null = ok []
  parse_precondition out (str s) = ok (record zero_condition { command = s } ∷ [])
  parse_precondition out (obj es) =
      set_entries out es zero_condition >>= λ c. wrap_error (obj es) (validate c)
  parse_precondition out (arr vs) = parse_preconditions out vs
  parse_precondition out (int i) =
      err (in_preconditions (int i) precondition_must_be_array_or_string)
  parse_precondition out (bool b) =
      err (in_preconditions (bool b) precondition_must_be_array_or_string)
  parse_precondition out (other t) =
      err (in_preconditions (other t) precondition_must_be_array_or_string)

  pub parse_preconditions : Outside → Values → Result (List Condition)
  parse_preconditions out nil = ok []
  parse_preconditions out (cons v vs) =
      parse_precondition out v >>= λ cs. parse_preconditions out vs >>= λ ds. ok (cs ++ ds)

-- `buildStepPrecondition`
unfoldable pub build_step_precondition :
    Outside → (preconditions precondition : Value) → Step → Result Step
unfolding parse_precondition
build_step_precondition out vs v step = do
  conditions ← parse_precondition out vs
  condition ← parse_precondition out v
  ok (record step { preconditions = conditions ++ condition })

-- A condition that can be evaluated: it has a text with an expected value, or a command. An empty
-- text as the precondition is the exception.
abbrev pub CanEval : Condition → Type 0
CanEval c = (validate c ≡ ok c) ⊎ (c ≡ zero_condition)

pub All-append : (cs ds : List Condition) → All CanEval cs → All CanEval ds → All CanEval (cs ++ ds)
All-append [] ds h k = k
All-append (c ∷ cs) ds h k = (h.0, All-append cs ds h.1 k)

validated : (c d : Condition) → validate c ≡ ok d → validate d ≡ ok d
unfolding validate
validated c d h = ground arith

command_only : (s : Text) → CanEval (record zero_condition { command = s })
unfolding validate
command_only [] = inr refl
command_only (c ∷ s) = inl refl

wrapped_once :
    (v : Value) (c : Condition) (cs : List Condition) (m : Result Condition)
    → m ≡ validate c
    → wrap_error v m ≡ ok cs
    → All CanEval cs
wrapped_once v c cs (ok d) e h =
    subst (All CanEval) (ok_injective h) (inl (validated c d (sym e)), tt)
wrapped_once v c cs (err x) e h = absurd (cc)
wrapped_once v c cs panic e h = absurd (cc)

mutual
  unfolding parse_precondition

  parsed :
      (out : Outside) (v : Value) (cs : List Condition)
      → parse_precondition out v ≡ ok cs
      → All CanEval cs
  parsed out null cs h = subst (All CanEval) (ok_injective h) tt
  parsed out (str s) cs h = subst (All CanEval) (ok_injective h) (command_only s, tt)
  parsed out (obj es) cs h =
      let (c, _, k) =
        ok_of_bind (set_entries out es zero_condition) (λ c. wrap_error (obj es) (validate c)) h in
      wrapped_once (obj es) c cs (validate c) refl k
  parsed out (arr vs) cs h = parsed_all out vs cs h
  parsed out (int i) cs h = absurd (cc)
  parsed out (bool b) cs h = absurd (cc)
  parsed out (other t) cs h = absurd (cc)

  parsed_all :
      (out : Outside) (vs : Values) (cs : List Condition)
      → parse_preconditions out vs ≡ ok cs
      → All CanEval cs
  parsed_all out nil cs h = subst (All CanEval) (ok_injective h) tt
  parsed_all out (cons v vs) cs h =
      let (cs₁, k₁, rest) =
        ok_of_bind (parse_precondition out v)
          (λ cs. parse_preconditions out vs >>= λ ds. ok (cs ++ ds)) h in
      let (cs₂, k₂, last) = ok_of_bind (parse_preconditions out vs) (λ ds. ok (cs₁ ++ ds)) rest in
      subst (All CanEval) (ok_injective last)
        (All-append cs₁ cs₂ (parsed out v cs₁ k₁) (parsed_all out vs cs₂ k₂))

-- Every condition that `parsePrecondition` gives passes `Validate`, or comes of an empty text.
pub parse_precondition-CanEval :
    (out : Outside) (v : Value) (cs : List Condition)
    → parse_precondition out v ≡ ok cs
    → All CanEval cs
parse_precondition-CanEval = parsed
