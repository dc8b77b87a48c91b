-- ===== src/Execution/Schedule/Statuses.antt =====
-- What the parts of a node's life do to its status, and a relation between the statuses before and
-- after.
use native.Mathlib.Decide.{ℕ_discrete}
use light_soar.Prelude.{
  ℕ, Bool, true, false, Option, none, some, if◌then◌else◌, put, ◌≡◌, refl, sym, subst, ap, ◌∙◌,
  put_self, put_ne, arith,
}
use light_soar.Execution.Status.{NodeStatus, Err}
use light_soar.Execution.Data.{Node, set_bool_variable}
use light_soar.Execution.Node.Defs.{
  LogCheck, EvalInt, should_continue, should_mark_success, start_execution, Ended, not_started, ran,
  end_execution, teardown, answer_by, should_continue_by_output, continue_by_status,
}
use light_soar.Execution.Schedule.Defs.{Nodes, status_at}
use light_soar.Execution.Schedule.Worker.{SetupInput, node_setup}

abbrev pub status_of : Node → NodeStatus
status_of n = n.node_data.state.status

-- A node whose status in `d'` has the property had such a status in `d`.
pub record Back (p : NodeStatus → Bool) (d d' : Nodes) : Type 0 where
  pub back : (j : ℕ) → p (status_at d' j) ≡ true → p (status_at d j) ≡ true

module _ (p : NodeStatus → Bool) where
  pub Back-refl : (d : Nodes) → Back p d d
  Back-refl d = record { back = λ j h. h }

  pub Back-trans : {d d' d'' : Nodes} → Back p d d' → Back p d' d'' → Back p d d''
  Back-trans f g = record { back = λ j h. f.back j (g.back j h) }

  pub put-Back :
      (d : Nodes) (i : ℕ) (n : Node)
      → (p (status_of n) ≡ true → p (status_at d i) ≡ true)
      → Back p d (put d i n)
  put-Back d i n h = record {
    back = λ j k. elim (ℕ_discrete i j) [
      | yes same ↦
          subst (λ x. p (status_at d x) ≡ true) same
            (h (ap (λ m. p (status_of m)) (sym (put_self d i j n same)) ∙ k))
      | no other ↦ ap (λ m. p (status_of m)) (sym (put_ne d i j n other)) ∙ k
    ];
  }

  -- A change that keeps the status of the node.
  pub put_same-Back :
      (d : Nodes) (i : ℕ) (n : Node) → status_of n ≡ status_at d i → Back p d (put d i n)
  put_same-Back d i n e = put-Back d i n (λ h. ap p (sym e) ∙ h)

  -- A change to a status without the property.
  pub put_other-Back :
      (d : Nodes) (i : ℕ) (n : Node) → p (status_of n) ≡ false → Back p d (put d i n)
  put_other-Back d i n e = put-Back d i n (λ h. absurd (ground arith))

-- The answers of `shouldContinue` keep the status.
answer_by-status_of :
    (cached : Option Bool) (matched no_pattern : Bool) (logged : Option Bool) (n : Node)
    → status_of (answer_by cached matched no_pattern logged n).1 ≡ status_of n
unfolding set_bool_variable
answer_by-status_of (some v) matched no_pattern logged n = refl
answer_by-status_of none true no_pattern logged n = refl
answer_by-status_of none false true logged n = refl
answer_by-status_of none false false none n = refl
answer_by-status_of none false false (some b) n = refl

by_output-status_of :
    (log : LogCheck) (n : Node) → status_of (should_continue_by_output log n).1 ≡ status_of n
unfolding should_continue_by_output
by_output-status_of log n = answer_by-status_of _ _ _ _ n

if-status_of :
    (b : Bool) (log : LogCheck) (n : Node)
    → status_of (if b then (true, n) else should_continue_by_output log n).1 ≡ status_of n
if-status_of true log n = refl
if-status_of false log n = by_output-status_of log n

by_status-status_of :
    (log : LogCheck) (s : NodeStatus) (n : Node)
    → status_of (continue_by_status log s n).1 ≡ status_of n
unfolding continue_by_status
by_status-status_of log NodeStatus.success n = refl
by_status-status_of log NodeStatus.error n = if-status_of n.node_data.step.continue_on.failure log n
by_status-status_of log NodeStatus.cancel n = refl
by_status-status_of log NodeStatus.skipped n =
    if-status_of n.node_data.step.continue_on.skipped log n
by_status-status_of log NodeStatus.none n = refl
by_status-status_of log NodeStatus.running n = refl

pub should_continue-status_of :
    (log : LogCheck) (n : Node) → status_of (should_continue log n).1 ≡ status_of n
unfolding should_continue
should_continue-status_of log n = by_status-status_of log n.node_data.state.status n

pub should_mark_success-status_of :
    (log : LogCheck) (n : Node) → status_of (should_mark_success log n).1 ≡ status_of n
unfolding should_mark_success
should_mark_success-status_of log n = should_continue-status_of log n

pub start_execution-status_of : (n : Node) → status_of (start_execution n) ≡ status_of n
unfolding start_execution
start_execution-status_of n = ground arith

pub teardown-status_of : (e : Option Err) (n : Node) → status_of (teardown e n).0 ≡ status_of n
unfolding teardown
teardown-status_of e n = ground arith

pub end_execution-status_of : (e : Ended) (n : Node) → status_of (end_execution e n).0 ≡ status_of n
unfolding end_execution
end_execution-status_of (not_started e) n = refl
end_execution-status_of (ran none code none) n = ground arith
end_execution-status_of (ran none code (some t)) n = ground arith
end_execution-status_of (ran (some e) code none) n = ground arith
end_execution-status_of (ran (some e) code (some t)) n = ground arith

pub node_setup-status_of :
    (eval : EvalInt) (x : SetupInput) (n : Node) → status_of (node_setup eval x n).0 ≡ status_of n
unfolding node_setup
node_setup-status_of eval x n = ground arith
