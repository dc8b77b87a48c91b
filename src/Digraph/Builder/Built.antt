-- ===== src/Digraph/Builder/Built.antt =====
-- What holds of a step that `buildStep` gives.
use light_soar.Prelude.{
  Bool, true, false, Option, none, some, List, [], if◌then◌else◌, if_ind, All, Text, text_eq,
  text_eq_refl, ◌≡◌, ◌≢◌, refl, sym, ap, ◌∙◌,
}
use light_soar.Command.Defs.{Split, command_is_empty, panics, split_command}
use light_soar.Digraph.Value.{Value, null, str, int, bool, other, arr, obj}
use light_soar.Digraph.Step.{Step, ExecutorConfig, Condition}
use light_soar.Digraph.Builder.Result.{
  Outside, BuildErr, Result, ok, err, panic, name_error, or_error, ok_of_bind,
}
use light_soar.Digraph.Builder.Ensures.{
  Ensures, Ensures-bind, Ensures-map, Ensures-then, Ensures-name_error, Ensures-ok, or_error-some,
}
use light_soar.Digraph.Builder.Fields.{
  ContinueOnDef, RetryPolicyDef, RepeatPolicyDef, build_continue_on, build_retry_policy,
  build_repeat_policy, build_depends, build_signal_on_stop, build_sub_workflow,
  parse_string_or_array, parse_int_or_array, set_limit, set_interval,
}
use light_soar.Digraph.Builder.Preconditions.{
  build_step_precondition, parse_precondition, CanEval, parse_precondition-CanEval, All-append,
}
use light_soar.Digraph.Builder.Commands.{
  build_command, build_executor, FuncDef, CallFuncDef, call_args, set_executor_keys, with_command,
  check_config, config_convertible,
}
use light_soar.Digraph.Builder.Steps.{
  StepDef, runs_nothing, assert_step_def, parse_func_call, first_step, step_builders, run_builders,
  build_step,
}

-- A builder of fields other than the name, the dependencies and the preconditions.
pub record Keeps (s s' : Step) : Type 0 where
  pub name : s'.name ≡ s.name
  pub depends : s'.depends ≡ s.depends
  pub conditions : s'.preconditions ≡ s.preconditions

Keeps-refl : (s : Step) → Keeps s s
Keeps-refl s = record { name = refl; depends = refl; conditions = refl }

kept :
    (s s' : Step)
    → s'.name ≡ s.name
    → s'.depends ≡ s.depends
    → s'.preconditions ≡ s.preconditions
    → Keeps s s'
kept s s' a b c = record { name = a; depends = b; conditions = c }

continue_on-Keeps :
    (d : Option ContinueOnDef) (s : Step) → Ensures (Keeps s) (build_continue_on d s)
unfolding build_continue_on
continue_on-Keeps none s = Keeps-refl s
continue_on-Keeps (some d) s =
    Ensures-bind (Keeps s) (or_error (parse_int_or_array d.exit_code) _) _ (λ codes.
      Ensures-bind (Keeps s) (or_error (parse_string_or_array d.output) _) _
        (λ output. record { name = refl; depends = refl; conditions = refl }))

retry_policy-Keeps :
    (d : Option RetryPolicyDef) (s : Step) → Ensures (Keeps s) (build_retry_policy d s)
unfolding build_retry_policy
retry_policy-Keeps none s = Keeps-refl s
retry_policy-Keeps (some d) s = Ensures-bind (Keeps s) (set_limit d.limit s.retry_policy) _ (λ p.
    Ensures-bind (Keeps s) (set_interval d.interval_sec p) _
      (λ q. record { name = refl; depends = refl; conditions = refl }))

repeat_policy-Keeps :
    (d : Option RepeatPolicyDef) (s : Step) → Ensures (Keeps s) (build_repeat_policy d s)
unfolding build_repeat_policy
repeat_policy-Keeps none s = Keeps-refl s
repeat_policy-Keeps (some d) s = record { name = refl; depends = refl; conditions = refl }

signal-Keeps :
    (out : Outside) (d : Option Text) (s : Step) → Ensures (Keeps s) (build_signal_on_stop out d s)
unfolding build_signal_on_stop
signal-Keeps out none s = Keeps-refl s
signal-Keeps out (some t) s =
    if_ind (Ensures (Keeps s)) (out.is_signal t)
      (record { name = refl; depends = refl; conditions = refl }) tt

sub_workflow-Keeps :
    (run params : Text) (s : Step) → Ensures (Keeps s) (build_sub_workflow run params s)
unfolding build_sub_workflow
sub_workflow-Keeps run params s =
    if_ind (Ensures (Keeps s)) (text_eq run []) (Keeps-refl s)
      (record { name = refl; depends = refl; conditions = refl })

with_command-Keeps : (t : Step) (x : Split) (v : Value) → Ensures (Keeps t) (with_command t x v)
with_command-Keeps t (Split.ok c args) v = record { name = refl; depends = refl; conditions = refl }
with_command-Keeps t command_is_empty v = tt
with_command-Keeps t panics v = tt

command-Keeps : (out : Outside) (v : Value) (s : Step) → Ensures (Keeps s) (build_command out v s)
unfolding build_command
command-Keeps out null s = Keeps-refl s
command-Keeps out (str t) s = if_ind (Ensures (Keeps s)) (text_eq t []) tt (
    Ensures-map (with_command (record s { cmd_with_args = t }) (split_command t) (str t))
      (λ b k. kept s b k.name k.depends k.conditions)
      (with_command-Keeps (record s { cmd_with_args = t }) (split_command t) (str t)))
command-Keeps out (arr vs) s = record { name = refl; depends = refl; conditions = refl }
command-Keeps out (int i) s = tt
command-Keeps out (bool b) s = tt
command-Keeps out (other t) s = tt
command-Keeps out (obj es) s = tt

check_config-Keeps : (s : Step) (e : ExecutorConfig) → Ensures (Keeps s) (check_config s e)
unfolding check_config
check_config-Keeps s e =
    if_ind (Ensures (Keeps s)) (config_convertible e.config)
      (record { name = refl; depends = refl; conditions = refl }) tt

executor-Keeps : (v : Value) (s : Step) → Ensures (Keeps s) (build_executor v s)
unfolding build_executor
executor-Keeps null s = Keeps-refl s
executor-Keeps (str t) s = check_config-Keeps s (record s.executor_config { type = t })
executor-Keeps (obj es) s =
    Ensures-bind (Keeps s) (set_executor_keys es s.executor_config) (check_config s)
      (check_config-Keeps s)
executor-Keeps (int i) s = tt
executor-Keeps (bool b) s = tt
executor-Keeps (other t) s = tt
executor-Keeps (arr vs) s = tt

-- Before and after the dependencies are built, and at the end.
abbrev Named : StepDef → Step → Type 0
Named d s = s.name ≡ d.name

record IsLinkedStep (d : StepDef) (s : Step) : Type 0 where
  name : s.name ≡ d.name
  depends : parse_string_or_array d.depends ≡ some s.depends

pub record IsBuilt (d : StepDef) (s : Step) : Type 0 where
  pub named : d.name ≢ []
  pub runnable : runs_nothing d ≡ false
  pub name : s.name ≡ d.name
  pub depends : parse_string_or_array d.depends ≡ some s.depends
  pub conditions : All CanEval s.preconditions

depends-IsLinkedStep :
    (d : StepDef) (s : Step) → Named d s → Ensures (IsLinkedStep d) (build_depends d.depends s)
unfolding build_depends
depends-IsLinkedStep d s h =
    Ensures-then (λ deps. parse_string_or_array d.depends ≡ some deps) (IsLinkedStep d)
      (or_error (parse_string_or_array d.depends) _) _
      (or_error-some (parse_string_or_array d.depends) _)
      (λ deps k. record { name = h; depends = k })

linked : (d : StepDef) (s s' : Step) → IsLinkedStep d s → Keeps s s' → IsLinkedStep d s'
linked d s s' h k = record { name = k.name ∙ h.name; depends = h.depends ∙ ap some (sym k.depends) }

-- A later builder of another field.
later :
    (d : StepDef) (s : Step) (name : Text) (m : Result Step)
    → IsLinkedStep d s
    → Ensures (Keeps s) m
    → Ensures (IsLinkedStep d) (name_error name m)
later d s name m h k =
    Ensures-name_error (IsLinkedStep d) name m (Ensures-map m (λ s' kept. linked d s s' h kept) k)

-- What `parsePrecondition` ensures.
conditions-ok : (out : Outside) (v : Value) → Ensures (All CanEval) (parse_precondition out v)
conditions-ok out v = go (parse_precondition out v) refl
  where
    go : (m : Result (List Condition)) → parse_precondition out v ≡ m → Ensures (All CanEval) m
    go (ok cs) e = parse_precondition-CanEval out v cs e
    go (err x) e = tt
    go panic e = tt

module _ (out : Outside) (d : StepDef) (named : d.name ≢ [])
    (runnable : runs_nothing d ≡ false) where
  precondition-IsBuilt :
      (s : Step)
      → IsLinkedStep d s
      → Ensures (IsBuilt d) (build_step_precondition out d.preconditions d.precondition s)
  unfolding build_step_precondition
  precondition-IsBuilt s h =
      Ensures-then (All CanEval) (IsBuilt d) (parse_precondition out d.preconditions) _
        (conditions-ok out d.preconditions)
        (λ cs p.
          Ensures-then (All CanEval) (IsBuilt d) (parse_precondition out d.precondition) _
            (conditions-ok out d.precondition)
            (λ ds q. record {
              named = named;
              runnable = runnable;
              name = h.name;
              depends = h.depends;
              conditions = All-append cs ds p q;
            }))

  run_builders-IsBuilt :
      (s : Step) → Named d s → Ensures (IsBuilt d) (run_builders (step_builders out d) s)
  unfolding run_builders step_builders
  run_builders-IsBuilt s h =
      Ensures-then (Keeps s) (IsBuilt d) (name_error _ (build_executor d.executor s)) _
        (Ensures-name_error (Keeps s) _ (build_executor d.executor s) (executor-Keeps d.executor s))
        (λ s₁ k₁.
          Ensures-then (Keeps s₁) (IsBuilt d) (name_error _ (build_command out d.command s₁)) _
            (Ensures-name_error (Keeps s₁) _ (build_command out d.command s₁)
              (command-Keeps out d.command s₁))
            (λ s₂ k₂.
              Ensures-then (IsLinkedStep d) (IsBuilt d) (name_error _ (build_depends d.depends s₂))
                _
                (Ensures-name_error (IsLinkedStep d) _ (build_depends d.depends s₂)
                  (depends-IsLinkedStep d s₂ (k₂.name ∙ k₁.name ∙ h)))
                (λ s₃ l₃.
                  Ensures-then (IsLinkedStep d) (IsBuilt d)
                    (name_error _ (build_sub_workflow d.run d.params s₃)) _
                    (later d s₃ _ _ l₃ (sub_workflow-Keeps d.run d.params s₃))
                    (λ s₄ l₄.
                      Ensures-then (IsLinkedStep d) (IsBuilt d)
                        (name_error _ (build_continue_on d.continue_on s₄)) _
                        (later d s₄ _ _ l₄ (continue_on-Keeps d.continue_on s₄))
                        (λ s₅ l₅.
                          Ensures-then (IsLinkedStep d) (IsBuilt d)
                            (name_error _ (build_retry_policy d.retry_policy s₅)) _
                            (later d s₅ _ _ l₅ (retry_policy-Keeps d.retry_policy s₅))
                            (λ s₆ l₆.
                              Ensures-then (IsLinkedStep d) (IsBuilt d)
                                (name_error _ (build_repeat_policy d.repeat_policy s₆)) _
                                (later d s₆ _ _ l₆ (repeat_policy-Keeps d.repeat_policy s₆))
                                (λ s₇ l₇.
                                  Ensures-then (IsLinkedStep d) (IsBuilt d)
                                    (name_error _ (build_signal_on_stop out d.signal_on_stop s₇)) _
                                    (later d s₇ _ _ l₇ (signal-Keeps out d.signal_on_stop s₇))
                                    (λ s₈ l₈.
                                      Ensures-then (IsBuilt d) (IsBuilt d)
                                        (name_error _ (
                                          build_step_precondition out d.preconditions d.precondition
                                            s₈))
                                        _
                                        (Ensures-name_error (IsBuilt d) _
                                          (build_step_precondition out d.preconditions
                                            d.precondition s₈)
                                          (precondition-IsBuilt s₈ l₈))
                                        (λ s₉ l₉. l₉)))))))))

  call-Named :
      (fs : List FuncDef) → Ensures (Named d) (parse_func_call out d.call fs (first_step d))
  unfolding parse_func_call first_step
  call-Named fs = called d.call
    where
      called :
          (c : Option CallFuncDef) → Ensures (Named d) (parse_func_call out c fs (first_step d))
      called none = refl
      called (some c) = Ensures-bind (Named d) (call_args out c.args) _ (λ args. refl)

  built : (fs : List FuncDef) → Ensures (IsBuilt d) (build_step out fs d)
  unfolding build_step
  built fs = Ensures-bind (IsBuilt d) (assert_step_def d fs) _ (λ _.
      Ensures-then (Named d) (IsBuilt d) (parse_func_call out d.call fs (first_step d)) _
        (call-Named fs) (run_builders-IsBuilt))

not_true : text_eq [] [] ≢ false
not_true h = let e = text_eq_refl [] in cc

guarded :
    (a b : Bool) (x y : BuildErr) (m : Result (Unit {0})) (u : Unit {0})
    → (if a then err x else if b then err y else m) ≡ ok u
    → (a ≡ false) × (b ≡ false)
guarded true b x y m u h = cc
guarded false true x y m u h = cc
guarded false false x y m u h = (refl, refl)

asserted :
    (d : StepDef) (fs : List FuncDef) (u : Unit {0})
    → assert_step_def d fs ≡ ok u
    → (d.name ≢ []) × (runs_nothing d ≡ false)
unfolding assert_step_def
asserted d fs u h =
    let (named, runnable) = guarded (text_eq d.name []) (runs_nothing d) _ _ _ u h in
    ((λ e. not_true (ap (λ n. text_eq n []) (sym e) ∙ named)), runnable)

-- A step that `buildStep` gives has the name of its definition, which is not empty and names something
-- to run; its dependencies are those that the definition lists; and each of its preconditions passes
-- `Validate` or is the zero condition of an empty text.
pub build_step-IsBuilt :
    (out : Outside) (fs : List FuncDef) (d : StepDef) (s : Step)
    → build_step out fs d ≡ ok s
    → IsBuilt d s
unfolding build_step
build_step-IsBuilt out fs d s h =
    let (u, k, _) = ok_of_bind (assert_step_def d fs) _ h in
    let (named, runnable) = asserted d fs u k in
    Ensures-ok (IsBuilt d) (build_step out fs d) s (built out d named runnable fs) h
