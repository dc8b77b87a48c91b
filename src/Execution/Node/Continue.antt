-- ===== src/Execution/Node/Continue.antt =====
-- `shouldContinue` remembers its answer among the step's variables. What it remembers, and when it
-- does not.
use light_soar.Prelude.{
  ◌<◌, Bool, true, false, Option, none, some, Text, ascii, text_eq_refl, count, ◌≡◌, ◌≢◌, refl, ap,
  sym, subst, ◌∙◌, inl, inr, arith, Bool-cases, count-append,
}
use light_soar.Digraph.Variables.{
  new_key_value, to_bool, format_bool, load-store, to_bool-new_key_value, to_bool-new_key_value_eq,
}
use light_soar.Execution.Status.{NodeStatus}
use light_soar.Execution.Data.{
  NodeData, Node, variables, get_bool_variable, set_bool_variable, match_exit_code,
}
use light_soar.Execution.Node.Defs.{
  LogCheck, cache_key, answer_by, should_continue_by_output, continue_by_status, should_continue,
}

-- `setBoolVariable` and then `getBoolVariable`.
get_bool_variable-set :
    (k : Text) (b : Bool) (d : NodeData)
    → get_bool_variable k (set_bool_variable k b d)
      ≡ some (to_bool (new_key_value k (format_bool b)))
unfolding get_bool_variable set_bool_variable
get_bool_variable-set k b d =
    rw (load-store (variables d) k (new_key_value k (format_bool b)) k) (rw (text_eq_refl k))

count-cache_key : (n : Node) → count b'=' (cache_key n) ≡ count b'=' n.node_data.step.name
count-cache_key n =
    omega (arith, count-append b'=' (ascii "DAGU_CONTINUE_ON.") n.node_data.step.name)

remembered :
    (n : Node) (b : Bool)
    → count b'=' n.node_data.step.name ≡ 0
    → get_bool_variable (cache_key n) (set_bool_variable (cache_key n) b n.node_data) ≡ some b
remembered n b h =
    get_bool_variable-set (cache_key n) b n.node_data
    ∙ rw (to_bool-new_key_value (cache_key n) b (count-cache_key n ∙ h))

abbrev Remembers : Bool × Node → Type 0
Remembers r = get_bool_variable (cache_key r.1) r.1.node_data ≡ some r.0

answer_by-Remembers :
    (cached : Option Bool) (matched no_pattern : Bool) (logged : Option Bool) (n : Node)
    → get_bool_variable (cache_key n) n.node_data ≡ cached
    → count b'=' n.node_data.step.name ≡ 0
    → logged ≢ none
    → Remembers (answer_by cached matched no_pattern logged n)
unfolding set_bool_variable
answer_by-Remembers (some v) matched no_pattern logged n e h readable = e
answer_by-Remembers none true no_pattern logged n e h readable = remembered n true h
answer_by-Remembers none false true logged n e h readable = remembered n false h
answer_by-Remembers none false false none n e h readable = absurd (readable refl)
answer_by-Remembers none false false (some b) n e h readable = remembered n b h

-- Nothing but the variables changes.
record Keeps (n n' : Node) : Type 0 where
  status : n'.node_data.state.status ≡ n.node_data.state.status
  on : n'.node_data.step.continue_on ≡ n.node_data.step.continue_on

Keeps-refl : (n : Node) → Keeps n n
Keeps-refl n = record { status = refl; on = refl }

answer_by-Keeps :
    (cached : Option Bool) (matched no_pattern : Bool) (logged : Option Bool) (n : Node)
    → Keeps n (answer_by cached matched no_pattern logged n).1
unfolding set_bool_variable
answer_by-Keeps (some v) matched no_pattern logged n = Keeps-refl n
answer_by-Keeps none true no_pattern logged n = record { status = refl; on = refl }
answer_by-Keeps none false true logged n = record { status = refl; on = refl }
answer_by-Keeps none false false none n = Keeps-refl n
answer_by-Keeps none false false (some b) n = record { status = refl; on = refl }

answer_by_cached :
    (log : LogCheck) (n : Node) (b : Bool)
    → get_bool_variable (cache_key n) n.node_data ≡ some b
    → (should_continue_by_output log n).0 ≡ b
unfolding should_continue_by_output
answer_by_cached log n b h = ground (arith, h)

module _ (log log' : LogCheck) (n : Node) (plain : count b'=' n.node_data.step.name ≡ 0)
    (readable : log n.log_file n.node_data.step.continue_on.output ≢ none) where
  by_output-Remembers : Remembers (should_continue_by_output log n)
  unfolding should_continue_by_output
  by_output-Remembers = answer_by-Remembers _ _ _ _ n refl plain readable

  by_output-Keeps : Keeps n (should_continue_by_output log n).1
  unfolding should_continue_by_output
  by_output-Keeps = answer_by-Keeps _ _ _ _ n

  abbrev n₁ : Node
  n₁ = (should_continue_by_output log n).1

  by_output_again : (should_continue_by_output log' n₁).0 ≡ (should_continue_by_output log n).0
  by_output_again = answer_by_cached log' n₁ _ by_output-Remembers

  on_error :
      n.node_data.step.continue_on.failure ≡ false
      → (continue_by_status log' NodeStatus.error n₁).0 ≡ (should_continue_by_output log n).0
  unfolding continue_by_status
  on_error h = ground (arith, by_output_again, by_output-Keeps.on)

  on_skipped :
      n.node_data.step.continue_on.skipped ≡ false
      → (continue_by_status log' NodeStatus.skipped n₁).0 ≡ (should_continue_by_output log n).0
  unfolding continue_by_status
  on_skipped h = ground (arith, by_output_again, by_output-Keeps.on)

  at_status :
      (m : Node) (s : NodeStatus)
      → m.node_data.state.status ≡ s
      → (should_continue log' m).0 ≡ (continue_by_status log' s m).0
  unfolding should_continue
  at_status m s e = ap (λ t. (continue_by_status log' t m).0) e

  error_off :
      n.node_data.step.continue_on.failure ≡ false
      → continue_by_status log NodeStatus.error n ≡ should_continue_by_output log n
  unfolding continue_by_status
  error_off h = ground arith

  skipped_off :
      n.node_data.step.continue_on.skipped ≡ false
      → continue_by_status log NodeStatus.skipped n ≡ should_continue_by_output log n
  unfolding continue_by_status
  skipped_off h = ground arith

  abbrev IsSame : Bool × Node → Type 0
  IsSame r = (should_continue log' r.1).0 ≡ r.0

  go : (s : NodeStatus) → n.node_data.state.status ≡ s → IsSame (continue_by_status log s n)
  unfolding continue_by_status
  go NodeStatus.success e = at_status n NodeStatus.success e
  go NodeStatus.error e = elim (Bool-cases n.node_data.step.continue_on.failure) [
    | inl yes_flag ↦ ground (arith, at_status n NodeStatus.error e)
    | inr no_flag ↦
        subst IsSame (sym (error_off no_flag))
          (at_status n₁ NodeStatus.error (by_output-Keeps.status ∙ e) ∙ on_error no_flag)
  ]
  go NodeStatus.cancel e = at_status n NodeStatus.cancel e
  go NodeStatus.skipped e = elim (Bool-cases n.node_data.step.continue_on.skipped) [
    | inl yes_flag ↦ ground (arith, at_status n NodeStatus.skipped e)
    | inr no_flag ↦
        subst IsSame (sym (skipped_off no_flag))
          (at_status n₁ NodeStatus.skipped (by_output-Keeps.status ∙ e) ∙ on_skipped no_flag)
  ]
  go NodeStatus.none e = at_status n NodeStatus.none e
  go NodeStatus.running e = at_status n NodeStatus.running e

  -- For a step whose name has no `=` and whose log can be read, `shouldContinue` gives the same
  -- answer when it is asked again, whatever the log holds by then.
  pub should_continue_remembered :
      (should_continue log' (should_continue log n).1).0 ≡ (should_continue log n).0
  unfolding should_continue
  should_continue_remembered = go n.node_data.state.status refl

-- For a failed step whose name has an `=`, an exit code that lets the run go on counts only the
-- first time: the answer that was remembered is read back as false.
pub should_continue_forgets :
    (log log' : LogCheck) (n : Node)
    → 0 < count b'=' n.node_data.step.name
    → n.node_data.state.status ≡ NodeStatus.error
    → n.node_data.step.continue_on.failure ≡ false
    → get_bool_variable (cache_key n) n.node_data ≡ none
    → match_exit_code n.node_data.step.continue_on.exit_code n.node_data ≡ true
    → ((should_continue log n).0 ≡ true)
      × ((should_continue log' (should_continue log n).1).0 ≡ false)
unfolding should_continue should_continue_by_output set_bool_variable
should_continue_forgets log log' n h failed no_flag fresh matched =
    let stored =
      get_bool_variable-set (cache_key n) true n.node_data
      ∙ ap some (
          to_bool-new_key_value_eq (cache_key n) (format_bool true)
            (omega (arith, count-cache_key n))) in
    (ground (arith, stored), ground (arith, stored))
