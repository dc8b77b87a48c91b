-- ===== src/Execution/Schedule/Defs.antt =====
-- The scheduler's tests and its state. The nodes are those of the graph, as one map; the graph's
-- edges do not change during a run.
use light_soar.Prelude.{
  ℕ, zero, suc, ◌+◌, leb, ℤ, pos, negsuc, Bool, true, false, not, ◌&&◌, Option, none, some, List,
  [], ◌∷◌, if◌then◌else◌, any, all, GoMap, put,
}
use light_soar.Execution.Status.{
  NodeStatus, Status, Err, upstream_failed, upstream_skipped, is_none, is_running, is_success,
  is_skipped,
}
use light_soar.Execution.Data.{Node, set_status, set_error}
use light_soar.Execution.Graph.Defs.{ExecutionGraph}
use light_soar.Execution.Node.Defs.{LogCheck, with_data, should_continue}

abbrev pub Nodes : Type 0
Nodes = GoMap Node

abbrev pub status_at : Nodes → ℕ → NodeStatus
status_at d i = (d.at i).node_data.state.status

abbrev pub set_status_at : NodeStatus → ℕ → Nodes → Nodes
unfolding set_status
set_status_at s i d = put d i (with_data (d.at i) (set_status s (d.at i).node_data))

abbrev pub set_error_at : Option Err → ℕ → Nodes → Nodes
unfolding set_error
set_error_at e i d = put d i (with_data (d.at i) (set_error e (d.at i).node_data))

-- Where a dependency does not let the node go on.
unfoldable pub block : NodeStatus → Option Err → ℕ → Nodes → Bool × Nodes
unfolding set_status set_error
block s e i d = (false, set_error_at e i (set_status_at s i d))

module _ (log : LogCheck) where
  -- The answer of `shouldContinue`, with the node as it leaves it.
  unfoldable pub ask : ℕ → Nodes → Bool × Nodes
  unfolding should_continue
  ask dep d = let (b, n) = should_continue log (d.at dep) in (b, put d dep n)

  -- The cases of the loop's body of `isReady`, by the status of the dependency.
  unfoldable pub check_status : NodeStatus → ℕ → ℕ → Bool → Nodes → Bool × Nodes
  unfolding ask block set_status
  check_status NodeStatus.success i dep ready d = (ready, d)
  check_status NodeStatus.error i dep ready d =
      let (go_on, d') = ask dep d in
      if go_on then (ready, d') else block NodeStatus.cancel (some upstream_failed) i d'
  check_status NodeStatus.skipped i dep ready d =
      let (go_on, d') = ask dep d in
      if go_on then (ready, d') else block NodeStatus.skipped (some upstream_skipped) i d'
  check_status NodeStatus.cancel i dep ready d = (false, set_status_at NodeStatus.cancel i d)
  check_status NodeStatus.none i dep ready d = (false, d)
  check_status NodeStatus.running i dep ready d = (false, d)

  unfoldable pub check_deps : ℕ → List ℕ → Bool → Nodes → Bool × Nodes
  unfolding check_status
  check_deps i [] ready d = (ready, d)
  check_deps i (dep ∷ deps) ready d =
      let (ready', d') = check_status (status_at d dep) i dep ready d in check_deps i deps ready' d'

  -- `isReady`: the answer, and the nodes as it leaves them.
  unfoldable pub is_ready : ExecutionGraph → ℕ → Nodes → Bool × Nodes
  unfolding check_deps
  is_ready g i d = check_deps i (g.to.at i) true d

-- `runningCount`
unfoldable pub running_count : List ℕ → Nodes → ℕ
running_count [] d = 0
running_count (i ∷ is) d = (if is_running (status_at d i) then 1 else 0) + running_count is d

-- `isFinished`
unfoldable pub is_finished : List ℕ → Nodes → Bool
is_finished is d = all (λ i. not (is_running (status_at d i)) && not (is_none (status_at d i))) is

-- `isSucceed`
unfoldable pub is_succeed : List ℕ → Nodes → Bool
is_succeed is d =
    all (λ i. if is_success (status_at d i) then true else is_skipped (status_at d i)) is

-- `ExecutionGraph.IsRunning`
unfoldable pub any_running : List ℕ → Nodes → Bool
any_running is d = any (λ i. is_running (status_at d i)) is

-- `sc.maxActiveRuns > 0 && sc.runningCount(graph) >= sc.maxActiveRuns`
unfoldable pub at_capacity : ℤ → ℕ → Bool
at_capacity (pos zero) n = false
at_capacity (pos (suc m)) n = leb (suc m) n
at_capacity (negsuc m) n = false

abbrev pub is_some {ℓ} : {A : Type ℓ} → Option A → Bool
is_some none = false
is_some (some a) = true

-- The fields of `Scheduler` that a run changes, with whether the graph was started.
pub record RunState : Type 0 where
  pub started : Bool
  pub canceled : Bool
  pub last_error : Option Err

-- `Scheduler.Status`
unfoldable pub run_status : RunState → List ℕ → Nodes → Status
unfolding is_succeed any_running
run_status r is d =
    if r.canceled && not (is_succeed is d)
    then Status.cancel
    else if not r.started
    then Status.none
    else if any_running is d
    then Status.running
    else if is_some r.last_error
    then Status.error
    else Status.success

-- The handlers of a run.
pub data HandlerType : Type 0 where
  on_success on_failure on_cancel on_exit : HandlerType
