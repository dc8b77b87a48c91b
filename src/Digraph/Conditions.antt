-- ===== src/Digraph/Conditions.antt =====
-- `EvalConditions` of internal/digraph/condition.go.
use light_soar.Prelude.{
  Bool, true, false, Option, none, some, List, [], ◌∷◌, if◌then◌else◌, All, Text, ◌≡◌, ◌↔◌, refl,
}
use light_soar.Matcher.Defs.{match_pattern_scanner}
use light_soar.Digraph.Step.{Condition}
use light_soar.Digraph.Builder.Preconditions.{is_set}

-- The `EvalString` of the context, with and without the substitution of commands; a run of the shell,
-- as a test; the lines of a text; and the compiler of regular expressions.
pub record Evaluation : Type 0 where
  pub eval_string : Text → Option Text
  pub replace_vars : Text → Option Text
  pub runs : Text → Bool
  pub lines : Text → List Text
  pub compile : Text → Option (Text → Bool)

-- No error, one that is `ErrConditionNotMet`, or another.
pub data Verdict : Type 0 where
  met not_met cannot_eval : Verdict

abbrev pub met_if : Bool → Verdict
met_if true = met
met_if false = not_met

module _ (e : Evaluation) where
  abbrev pub compare_value : Text → Option Text → Verdict
  unfolding match_pattern_scanner
  compare_value expected none = cannot_eval
  compare_value expected (some v) =
      met_if (match_pattern_scanner e.compile true (e.lines v) (expected ∷ []))

  abbrev pub run_command : Option Text → Verdict
  run_command none = cannot_eval
  run_command (some command) = met_if (e.runs command)

  -- `evalCondition`, with the methods that it calls.
  unfoldable pub eval_condition : Condition → Verdict
  unfolding compare_value
  eval_condition c =
      if is_set c.condition
      then compare_value c.expected (e.eval_string c.condition)
      else if is_set c.command
      then run_command (e.replace_vars c.command)
      else cannot_eval

  abbrev first_error : Verdict → Verdict → Verdict
  first_error met v = v
  first_error not_met v = not_met
  first_error cannot_eval v = cannot_eval

  -- `EvalConditions`
  unfoldable pub eval_conditions : List Condition → Verdict
  unfolding eval_condition
  eval_conditions [] = met
  eval_conditions (c ∷ cs) = first_error (eval_condition c) (eval_conditions cs)

  both_met : (v w : Verdict) → (first_error v w ≡ met) ↔ ((v ≡ met) × (w ≡ met))
  both_met met w = ((λ h. (refl, h)), λ p. p.1)
  both_met not_met w = ((λ h. absurd (cc)), λ p. absurd (let q = p.0 in cc))
  both_met cannot_eval w = ((λ h. absurd (cc)), λ p. absurd (let q = p.0 in cc))

  -- The conditions are met exactly where each is.
  pub eval_conditions-met :
      (cs : List Condition) → (eval_conditions cs ≡ met) ↔ All (λ c. eval_condition c ≡ met) cs
  unfolding eval_conditions
  eval_conditions-met [] = ((λ h. tt), λ p. refl)
  eval_conditions-met (c ∷ cs) =
      let both = both_met (eval_condition c) (eval_conditions cs) in
      let rest = eval_conditions-met cs in
      ((λ h. let p = both.0 h in (p.0, rest.0 p.1)), λ p. both.1 (p.0, rest.1 p.1))
