-- ===== src/Execution/Schedule/Told.antt =====
-- A node in error is told by the last error of the run: no stretch of a goroutine leaves a node in
-- error, or drops the last error, without one.
use native.Mathlib.Decide.{ℕ_discrete}
use light_soar.Prelude.{
  ℕ, ◌==◌, Bool, false, not, ◌&&◌, Option, none, some, if◌then◌else◌, if_ind, length, ◌≡◌, refl,
  true, ◌⊎◌, inl, inr, put, put_self, put_ne, arith, int_exceeds,
}
use light_soar.Execution.Status.{NodeStatus, Err, is_error, is_running, is_cancel}
use light_soar.Execution.Data.{
  NodeData, Node, set_status, set_error, mark_error, finish, inc_retry_count, set_retried_at,
  inc_done_count,
}
use light_soar.Execution.Node.Defs.{LogCheck, EvalInt, should_mark_success, Ended}
use light_soar.Execution.Schedule.Defs.{Nodes, status_at, is_some}
use light_soar.Execution.Schedule.Worker.{
  Config, Run, change, replace, SetupInput, node_setup, check_preconditions, prepare, proceed,
  give_up, on_failure, count_done, teardown_node, leave, go_round, executed, executed_as, conclude,
  panicked, set_last_error, after_setup, handle, succeed, after_teardown, on_open_failure, Phase,
}
use light_soar.Execution.Schedule.Statuses.{
  status_of, Back, Back-refl, put_same-Back, put_other-Back, start_execution-status_of,
  teardown-status_of, end_execution-status_of, node_setup-status_of,
}

-- An error of a node in `d'` was there in `d`, or there is a last error.
pub record IsTold (d : Nodes) (l : Option Err) (d' : Nodes) (l' : Option Err) : Type 0 where
  pub errors :
      (j : ℕ)
      → is_error (status_at d' j) ≡ true
      → (is_error (status_at d j) ≡ true) ⊎ (is_some l' ≡ true)
  pub kept : is_some l ≡ true → is_some l' ≡ true

abbrev pub Told : Run → Run → Type 0
Told r r' = IsTold r.nodes r.state.last_error r'.nodes r'.state.last_error

pub by_Back : {d d' : Nodes} (l : Option Err) → Back is_error d d' → IsTold d l d' l
by_Back l b = record { errors = λ j h. inl (b.back j h); kept = λ h. h }

by_last_error : (r r' : Run) → is_some r'.state.last_error ≡ true → Told r r'
by_last_error r r' h = record { errors = λ j _. inr h; kept = λ _. h }

same :
    (f : NodeData → NodeData) (i : ℕ) (r : Run)
    → (f (r.nodes.at i).node_data).state.status ≡ status_at r.nodes i
    → Told r (change f i r)
same f i r e = by_Back r.state.last_error (put_same-Back is_error r.nodes i _ e)

ends :
    (f : NodeData → NodeData) (i : ℕ) (r : Run)
    → is_error (f (r.nodes.at i).node_data).state.status ≡ false
    → Told r (change f i r)
ends f i r e = by_Back r.state.last_error (put_other-Back is_error r.nodes i _ e)

pub still : (r : Run) → Told r r
still r = by_Back r.state.last_error (Back-refl is_error r.nodes)

pub IsTold-trans :
    {d d' d'' : Nodes} {l l' l'' : Option Err}
    → IsTold d l d' l'
    → IsTold d' l' d'' l''
    → IsTold d l d'' l''
IsTold-trans f g = record {
  errors = λ j h. elim (g.errors j h) [
    | inr told ↦ inr told
    | inl before ↦ elim (f.errors j before) [ inl first ↦ inl first | inr told ↦ inr (g.kept told) ]
  ];
  kept = λ h. g.kept (f.kept h);
}

replaced : (i : ℕ) (n : Node) (r : Run) → status_of n ≡ status_at r.nodes i → Told r (replace i n r)
replaced i n r e = by_Back r.state.last_error (put_same-Back is_error r.nodes i n e)

-- A node that is marked and then succeeds, whatever it was in between.
succeeds :
    (i : ℕ) (m n o : Node) (d : Nodes)
    → is_error (status_of o) ≡ false
    → Back is_error d (put (put (put d i m) i n) i o)
succeeds i m n o d h = record {
  back = λ j k. elim (ℕ_discrete i j) [
    | yes same_node ↦ absurd (ground (arith, put_self (put (put d i m) i n) i j o same_node, h))
    | no other ↦ ground (
      arith,
      k,
      put_ne (put (put d i m) i n) i j o other,
      put_ne (put d i m) i j n other,
      put_ne d i j m other,
    )
  ];
}

pub check_preconditions-Told :
    (failure : Option Err) (now i : ℕ) (r : Run) → Told r (check_preconditions failure now i r).0
unfolding check_preconditions set_status set_error finish
check_preconditions-Told none now i r = still r
check_preconditions-Told (some e) now i r =
    if_ind (λ (n : Run × Option Phase). Told r n.0)
      (length (r.nodes.at i).node_data.step.preconditions == 0) (still r)
      (ends (λ d. finish now (set_error (some e) (set_status NodeStatus.skipped d))) i r refl)

after_setup-Told : (i : ℕ) (e : Option Err) (r : Run) → Told r (after_setup i e r).0
unfolding after_setup mark_error
after_setup-Told i none r = still r
after_setup-Told i (some e) r =
    by_last_error r (change (mark_error (some e)) i (set_last_error e r)) refl

pub prepare-Told :
    (cfg : Config) (eval : EvalInt) (x : SetupInput) (i : ℕ) (r : Run)
    → Told r (prepare cfg eval x i r).0
unfolding prepare
prepare-Told cfg eval x i r =
    if_ind (λ (n : Run × Option Phase). Told r n.0) cfg.dry (still r)
      (let set_up = replace i (node_setup eval x (r.nodes.at i)).0 r in
        IsTold-trans (replaced i _ r (node_setup-status_of eval x (r.nodes.at i)))
          (after_setup-Told i (node_setup eval x (r.nodes.at i)).1 set_up))

pub proceed-Told : (cfg : Config) (ok : Bool) (i : ℕ) (r : Run) → Told r (proceed cfg ok i r).0
unfolding proceed
proceed-Told cfg ok i r =
    if_ind (λ (n : Run × Option Phase). Told r n.0) (ok && not r.state.canceled)
      (if_ind (λ s. Told r s) cfg.dry (still r)
        (replaced i _ r (start_execution-status_of (r.nodes.at i))))
      (still r)

give_up-Told : (log : LogCheck) (e : Err) (i : ℕ) (r : Run) → Told r (give_up log e i r)
unfolding give_up set_status mark_error
give_up-Told log e i r =
    let failed_run = change (set_status NodeStatus.error) i r in
    let asked = replace i (should_mark_success log (failed_run.nodes.at i)).1 failed_run in
    if_ind (λ s. Told r s) (should_mark_success log (failed_run.nodes.at i)).0
      (by_Back r.state.last_error (succeeds i _ _ _ r.nodes refl))
      (by_last_error r (set_last_error e (change (mark_error (some e)) i asked)) refl)

pub open_failure-Told :
    (log : LogCheck) (timed_out : Bool) (now : ℕ) (e : Err) (i : ℕ) (r : Run)
    → Told r (on_open_failure log timed_out now e i r)
unfolding on_open_failure set_status set_retried_at inc_retry_count
open_failure-Told log timed_out now e i r =
    if_ind (λ s. Told r s) timed_out
      (by_last_error r (set_last_error e (change (set_status NodeStatus.cancel) i r)) refl)
      (if_ind (λ s. Told r s) r.state.canceled (by_last_error r (set_last_error e r) refl)
        (if_ind (λ s. Told r s)
          (int_exceeds (r.nodes.at i).retry_policy.limit (r.nodes.at i).node_data.state.retry_count)
          (ends (λ d. set_status NodeStatus.none (set_retried_at now (inc_retry_count d))) i r refl)
          (give_up-Told log e i r)))

on_failure-Told :
    (log : LogCheck) (timed_out : Bool) (now : ℕ) (e : Err) (i : ℕ) (s : NodeStatus) (r : Run)
    → Told r (on_failure log timed_out now e i s r)
unfolding on_failure
on_failure-Told log timed_out now e i NodeStatus.success r = still r
on_failure-Told log timed_out now e i NodeStatus.cancel r = still r
on_failure-Told log timed_out now e i NodeStatus.none r = open_failure-Told log timed_out now e i r
on_failure-Told log timed_out now e i NodeStatus.running r =
    open_failure-Told log timed_out now e i r
on_failure-Told log timed_out now e i NodeStatus.error r = open_failure-Told log timed_out now e i r
on_failure-Told log timed_out now e i NodeStatus.skipped r =
    open_failure-Told log timed_out now e i r

count_done-Told : (i : ℕ) (r : Run) → Told r (count_done i r)
unfolding count_done inc_done_count
count_done-Told i r =
    if_ind (λ s. Told r s) (is_cancel (status_at r.nodes i)) (still r)
      (same inc_done_count i r refl)

teardown_node-Told :
    (cfg : Config) (closing : Option Err) (i : ℕ) (r : Run)
    → Told r (teardown_node cfg closing i r).0
unfolding teardown_node
teardown_node-Told cfg closing i r =
    if_ind (λ (n : Run × Option Err). Told r n.0) cfg.dry (still r)
      (replaced i _ r (teardown-status_of closing (r.nodes.at i)))

leave-Told :
    (cfg : Config) (closing : Option Err) (now i : ℕ) (r : Run) → Told r (leave cfg closing now i r)
unfolding leave finish
leave-Told cfg closing now i r =
    let s = (teardown_node cfg closing i r).0 in
    IsTold-trans (teardown_node-Told cfg closing i r) (same (finish now) i s refl)

go_round-Told :
    (cfg : Config) (closing : Option Err) (now : ℕ) (e : Option Err) (i : ℕ) (r : Run)
    → Told r (go_round cfg closing now e i r).0
unfolding go_round
go_round-Told cfg closing now none i r =
    let s = (r.nodes.at i).node_data.step in
    if_ind (λ (n : Run × Option Phase). Told r n.0) (s.repeat_policy.repeat && not r.state.canceled)
      (still r) (still r)
go_round-Told cfg closing now (some e) i r =
    let s = (r.nodes.at i).node_data.step in
    if_ind (λ (n : Run × Option Phase). Told r n.0)
      (s.repeat_policy.repeat && s.continue_on.failure && not r.state.canceled) (still r)
      (if_ind (λ (n : Run × Option Phase). Told r n.0) cfg.notifies (leave-Told cfg closing now i r)
        (still r))

handle-Told :
    (log : LogCheck) (timed_out : Bool) (now : ℕ) (e : Option Err) (i : ℕ) (r : Run)
    → Told r (handle log timed_out now e i r)
unfolding handle
handle-Told log timed_out now none i r = still r
handle-Told log timed_out now (some e) i r =
    on_failure-Told log timed_out now e i (status_at r.nodes i) r

executed_as-Told :
    (cfg : Config) (log : LogCheck) (timed_out : Bool) (closing : Option Err) (now i : ℕ)
    (done : Node × Option Err) (r : Run)
    → status_of done.0 ≡ status_at r.nodes i
    → Told r (executed_as cfg log timed_out closing now i done r).0
unfolding executed_as
executed_as-Told cfg log timed_out closing now i (n, e) r h =
    let replaced_run = replace i n r in
    let handled = handle log timed_out now e i replaced_run in
    let counted = count_done i handled in
    IsTold-trans
      (IsTold-trans
        (IsTold-trans (replaced i n r h) (handle-Told log timed_out now e i replaced_run))
        (count_done-Told i handled))
      (go_round-Told cfg closing now e i counted)

pub executed-Told :
    (cfg : Config) (log : LogCheck) (ended : Ended) (timed_out : Bool) (closing : Option Err)
    (now i : ℕ) (r : Run)
    → Told r (executed cfg log ended timed_out closing now i r).0
unfolding executed
executed-Told cfg log ended timed_out closing now i r =
    executed_as-Told cfg log timed_out closing now i _ r (
      if_ind (λ (n : Node × Option Err). status_of n.0 ≡ status_at r.nodes i) cfg.dry refl
        (end_execution-status_of ended (r.nodes.at i)))

after_teardown-Told : (i : ℕ) (e : Option Err) (r : Run) → Told r (after_teardown i e r)
unfolding after_teardown set_status
after_teardown-Told i none r = still r
after_teardown-Told i (some e) r =
    by_last_error r (change (set_status NodeStatus.error) i (set_last_error e r)) refl

pub conclude-Told :
    (cfg : Config) (closing : Option Err) (now i : ℕ) (r : Run)
    → Told r (conclude cfg closing now i r).0
unfolding conclude succeed finish set_status
conclude-Told cfg closing now i r =
    let succeeded = succeed i r in
    let torn_down = teardown_node cfg closing i succeeded in
    let settled = after_teardown i torn_down.1 torn_down.0 in
    IsTold-trans
      (IsTold-trans
        (IsTold-trans
          (if_ind (λ s. Told r s) (is_running (status_at r.nodes i))
            (ends (set_status NodeStatus.success) i r refl) (still r))
          (teardown_node-Told cfg closing i succeeded))
        (after_teardown-Told i torn_down.1 torn_down.0))
      (same (finish now) i settled refl)

pub panicked-Told :
    (cfg : Config) (ok : Bool) (closing : Option Err) (now : ℕ) (e : Err) (i : ℕ) (r : Run)
    → Told r (panicked cfg ok closing now e i r).0
unfolding panicked mark_error finish
panicked-Told cfg ok closing now e i r =
    let left = if ok then leave cfg closing now i r else change (finish now) i r in
    by_last_error r (set_last_error e (change (mark_error (some e)) i left)) refl
