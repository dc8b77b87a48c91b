-- ===== src/Execution/Schedule/Quiet.antt =====
-- No stretch of a goroutine makes a node running, takes back that the run was canceled, or touches
-- the node that the loop has admitted.
use light_soar.Prelude.{
  ℕ, ◌==◌, Bool, false, not, ◌&&◌, Option, none, some, if◌then◌else◌, if_ind, length, ◌≡◌, refl,
  ◌∙◌, int_exceeds,
}
use light_soar.Execution.Status.{NodeStatus, Err, is_running, is_cancel}
use light_soar.Execution.Data.{
  NodeData, Node, set_status, set_error, mark_error, finish, inc_retry_count, set_retried_at,
  inc_done_count,
}
use light_soar.Execution.Node.Defs.{LogCheck, EvalInt, should_mark_success, Ended}
use light_soar.Execution.Schedule.Defs.{Nodes, status_at}
use light_soar.Execution.Schedule.Worker.{
  Config, Run, change, replace, SetupInput, node_setup, check_preconditions, prepare, proceed,
  give_up, on_failure, count_done, teardown_node, leave, go_round, executed, executed_as, conclude,
  panicked, set_last_error, after_setup, handle, succeed, after_teardown, on_open_failure, Phase,
}
use light_soar.Execution.Schedule.Statuses.{
  status_of, Back, Back-refl, Back-trans, put_same-Back, put_other-Back,
  should_mark_success-status_of, start_execution-status_of, teardown-status_of,
  end_execution-status_of, node_setup-status_of,
}

-- What the loop's next start depends on.
abbrev pub gate : Run → Bool × Option ℕ
gate r = (r.state.canceled, r.admitted)

abbrev pub Quiet : Run → Run → Type 0
Quiet r r' = Back is_running r.nodes r'.nodes × (gate r' ≡ gate r)

same :
    (f : NodeData → NodeData) (i : ℕ) (r : Run)
    → (f (r.nodes.at i).node_data).state.status ≡ status_at r.nodes i
    → Quiet r (change f i r)
same f i r e = (put_same-Back is_running r.nodes i _ e, refl)

ends :
    (f : NodeData → NodeData) (i : ℕ) (r : Run)
    → is_running (f (r.nodes.at i).node_data).state.status ≡ false
    → Quiet r (change f i r)
ends f i r e = (put_other-Back is_running r.nodes i _ e, refl)

pub still : (r : Run) → Quiet r r
still r = (Back-refl is_running r.nodes, refl)

pub then_quiet :
    {d d' d'' : Nodes} {b b' b'' : Bool × Option ℕ}
    → Back is_running d d' × (b' ≡ b)
    → Back is_running d' d'' × (b'' ≡ b')
    → Back is_running d d'' × (b'' ≡ b)
then_quiet f g = (Back-trans is_running f.0 g.0, g.1 ∙ f.1)

pub replaced :
    (i : ℕ) (n : Node) (r : Run) → status_of n ≡ status_at r.nodes i → Quiet r (replace i n r)
replaced i n r e = (put_same-Back is_running r.nodes i n e, refl)

pub check_preconditions-Quiet :
    (failure : Option Err) (now i : ℕ) (r : Run) → Quiet r (check_preconditions failure now i r).0
unfolding check_preconditions set_status set_error finish
check_preconditions-Quiet none now i r = still r
check_preconditions-Quiet (some e) now i r =
    if_ind (λ (n : Run × Option Phase). Quiet r n.0)
      (length (r.nodes.at i).node_data.step.preconditions == 0) (still r)
      (ends (λ d. finish now (set_error (some e) (set_status NodeStatus.skipped d))) i r refl)

after_setup-Quiet : (i : ℕ) (e : Option Err) (r : Run) → Quiet r (after_setup i e r).0
unfolding after_setup mark_error
after_setup-Quiet i none r = still r
after_setup-Quiet i (some e) r = ends (mark_error (some e)) i (set_last_error e r) refl

pub prepare-Quiet :
    (cfg : Config) (eval : EvalInt) (x : SetupInput) (i : ℕ) (r : Run)
    → Quiet r (prepare cfg eval x i r).0
unfolding prepare
prepare-Quiet cfg eval x i r =
    if_ind (λ (n : Run × Option Phase). Quiet r n.0) cfg.dry (still r)
      (let set_up = replace i (node_setup eval x (r.nodes.at i)).0 r in
        then_quiet (replaced i _ r (node_setup-status_of eval x (r.nodes.at i)))
          (after_setup-Quiet i (node_setup eval x (r.nodes.at i)).1 set_up))

pub proceed-Quiet : (cfg : Config) (ok : Bool) (i : ℕ) (r : Run) → Quiet r (proceed cfg ok i r).0
unfolding proceed
proceed-Quiet cfg ok i r =
    if_ind (λ (n : Run × Option Phase). Quiet r n.0) (ok && not r.state.canceled)
      (if_ind (λ s. Quiet r s) cfg.dry (still r)
        (replaced i _ r (start_execution-status_of (r.nodes.at i))))
      (still r)

give_up-Quiet : (log : LogCheck) (e : Err) (i : ℕ) (r : Run) → Quiet r (give_up log e i r)
unfolding give_up set_status mark_error
give_up-Quiet log e i r =
    let failed_run = change (set_status NodeStatus.error) i r in
    let asked = replace i (should_mark_success log (failed_run.nodes.at i)).1 failed_run in
    then_quiet
      (then_quiet (ends (set_status NodeStatus.error) i r refl)
        (replaced i _ failed_run (should_mark_success-status_of log (failed_run.nodes.at i))))
      (if_ind (λ s. Quiet asked s) (should_mark_success log (failed_run.nodes.at i)).0
        (ends (set_status NodeStatus.success) i asked refl)
        (ends (mark_error (some e)) i asked refl))

pub open_failure-Quiet :
    (log : LogCheck) (timed_out : Bool) (now : ℕ) (e : Err) (i : ℕ) (r : Run)
    → Quiet r (on_open_failure log timed_out now e i r)
unfolding on_open_failure set_status set_retried_at inc_retry_count
open_failure-Quiet log timed_out now e i r =
    if_ind (λ s. Quiet r s) timed_out (ends (set_status NodeStatus.cancel) i r refl)
      (if_ind (λ s. Quiet r s) r.state.canceled (still r)
        (if_ind (λ s. Quiet r s)
          (int_exceeds (r.nodes.at i).retry_policy.limit (r.nodes.at i).node_data.state.retry_count)
          (ends (λ d. set_status NodeStatus.none (set_retried_at now (inc_retry_count d))) i r refl)
          (give_up-Quiet log e i r)))

on_failure-Quiet :
    (log : LogCheck) (timed_out : Bool) (now : ℕ) (e : Err) (i : ℕ) (s : NodeStatus) (r : Run)
    → Quiet r (on_failure log timed_out now e i s r)
unfolding on_failure
on_failure-Quiet log timed_out now e i NodeStatus.success r = still r
on_failure-Quiet log timed_out now e i NodeStatus.cancel r = still r
on_failure-Quiet log timed_out now e i NodeStatus.none r =
    open_failure-Quiet log timed_out now e i r
on_failure-Quiet log timed_out now e i NodeStatus.running r =
    open_failure-Quiet log timed_out now e i r
on_failure-Quiet log timed_out now e i NodeStatus.error r =
    open_failure-Quiet log timed_out now e i r
on_failure-Quiet log timed_out now e i NodeStatus.skipped r =
    open_failure-Quiet log timed_out now e i r

count_done-Quiet : (i : ℕ) (r : Run) → Quiet r (count_done i r)
unfolding count_done inc_done_count
count_done-Quiet i r =
    if_ind (λ s. Quiet r s) (is_cancel (status_at r.nodes i)) (still r)
      (same inc_done_count i r refl)

teardown_node-Quiet :
    (cfg : Config) (closing : Option Err) (i : ℕ) (r : Run)
    → Quiet r (teardown_node cfg closing i r).0
unfolding teardown_node
teardown_node-Quiet cfg closing i r =
    if_ind (λ (n : Run × Option Err). Quiet r n.0) cfg.dry (still r)
      (replaced i _ r (teardown-status_of closing (r.nodes.at i)))

leave-Quiet :
    (cfg : Config) (closing : Option Err) (now i : ℕ) (r : Run)
    → Quiet r (leave cfg closing now i r)
unfolding leave finish
leave-Quiet cfg closing now i r =
    let s = (teardown_node cfg closing i r).0 in
    then_quiet (teardown_node-Quiet cfg closing i r) (same (finish now) i s refl)

go_round-Quiet :
    (cfg : Config) (closing : Option Err) (now : ℕ) (e : Option Err) (i : ℕ) (r : Run)
    → Quiet r (go_round cfg closing now e i r).0
unfolding go_round
go_round-Quiet cfg closing now none i r =
    let s = (r.nodes.at i).node_data.step in
    if_ind (λ (n : Run × Option Phase). Quiet r n.0)
      (s.repeat_policy.repeat && not r.state.canceled) (still r) (still r)
go_round-Quiet cfg closing now (some e) i r =
    let s = (r.nodes.at i).node_data.step in
    if_ind (λ (n : Run × Option Phase). Quiet r n.0)
      (s.repeat_policy.repeat && s.continue_on.failure && not r.state.canceled) (still r)
      (if_ind (λ (n : Run × Option Phase). Quiet r n.0) cfg.notifies
        (leave-Quiet cfg closing now i r) (still r))

handle-Quiet :
    (log : LogCheck) (timed_out : Bool) (now : ℕ) (e : Option Err) (i : ℕ) (r : Run)
    → Quiet r (handle log timed_out now e i r)
unfolding handle
handle-Quiet log timed_out now none i r = still r
handle-Quiet log timed_out now (some e) i r =
    on_failure-Quiet log timed_out now e i (status_at r.nodes i) r

executed_as-Quiet :
    (cfg : Config) (log : LogCheck) (timed_out : Bool) (closing : Option Err) (now i : ℕ)
    (done : Node × Option Err) (r : Run)
    → status_of done.0 ≡ status_at r.nodes i
    → Quiet r (executed_as cfg log timed_out closing now i done r).0
unfolding executed_as
executed_as-Quiet cfg log timed_out closing now i (n, e) r h =
    let replaced_run = replace i n r in
    let handled = handle log timed_out now e i replaced_run in
    let counted = count_done i handled in
    then_quiet
      (then_quiet (then_quiet (replaced i n r h) (handle-Quiet log timed_out now e i replaced_run))
        (count_done-Quiet i handled))
      (go_round-Quiet cfg closing now e i counted)

pub executed-Quiet :
    (cfg : Config) (log : LogCheck) (ended : Ended) (timed_out : Bool) (closing : Option Err)
    (now i : ℕ) (r : Run)
    → Quiet r (executed cfg log ended timed_out closing now i r).0
unfolding executed
executed-Quiet cfg log ended timed_out closing now i r =
    executed_as-Quiet cfg log timed_out closing now i _ r (
      if_ind (λ (n : Node × Option Err). status_of n.0 ≡ status_at r.nodes i) cfg.dry refl
        (end_execution-status_of ended (r.nodes.at i)))

after_teardown-Quiet : (i : ℕ) (e : Option Err) (r : Run) → Quiet r (after_teardown i e r)
unfolding after_teardown set_status
after_teardown-Quiet i none r = still r
after_teardown-Quiet i (some e) r = ends (set_status NodeStatus.error) i (set_last_error e r) refl

pub conclude-Quiet :
    (cfg : Config) (closing : Option Err) (now i : ℕ) (r : Run)
    → Quiet r (conclude cfg closing now i r).0
unfolding conclude succeed finish set_status
conclude-Quiet cfg closing now i r =
    let succeeded = succeed i r in
    let torn_down = teardown_node cfg closing i succeeded in
    let settled = after_teardown i torn_down.1 torn_down.0 in
    then_quiet
      (then_quiet
        (then_quiet
          (if_ind (λ s. Quiet r s) (is_running (status_at r.nodes i))
            (ends (set_status NodeStatus.success) i r refl) (still r))
          (teardown_node-Quiet cfg closing i succeeded))
        (after_teardown-Quiet i torn_down.1 torn_down.0))
      (same (finish now) i settled refl)

pub panicked-Quiet :
    (cfg : Config) (ok : Bool) (closing : Option Err) (now : ℕ) (e : Err) (i : ℕ) (r : Run)
    → Quiet r (panicked cfg ok closing now e i r).0
unfolding panicked mark_error finish
panicked-Quiet cfg ok closing now e i r =
    let left = if ok then leave cfg closing now i r else change (finish now) i r in
    then_quiet
      (if_ind (λ s. Quiet r s) ok (leave-Quiet cfg closing now i r) (same (finish now) i r refl))
      (ends (mark_error (some e)) i left refl)
