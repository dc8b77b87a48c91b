-- ===== src/Execution/Schedule/Machine.antt =====
-- A run of `Schedule` as a machine: the loop over the nodes, the goroutines that it starts, and the
-- calls of `Signal` and `Cancel`, in any order. An event at which nothing waits changes nothing.
-- The tests of a node by the loop are one event, its start behind them is another, and so is each
-- stretch of a goroutine.
use light_soar.Prelude.{
  ℕ, zero, suc, Bool, true, false, Option, none, some, List, [], ◌∷◌, ◌++◌, if◌then◌else◌, ◌≡◌, ◌⊎◌,
}
use light_soar.Execution.Status.{NodeStatus, Err, is_none}
use light_soar.Execution.Data.{set_status}
use light_soar.Execution.Graph.Defs.{ExecutionGraph}
use light_soar.Execution.Node.Defs.{LogCheck, EvalInt, Ended, signal, cancel}
use light_soar.Execution.Schedule.Defs.{
  status_at, set_status_at, is_ready, running_count, at_capacity,
}
use light_soar.Execution.Schedule.Worker.{
  Config, Phase, starting, preparing, executing, ending, looping, Worker, Run, replace, SetupInput,
  check_preconditions, prepare, proceed, executed, conclude, panicked,
}

pub data Event : Type 0 where
  visit : (i : ℕ) → Event
  start : Event
  preconditions_checked : (k : ℕ) (failure : Option Err) (now : ℕ) → Event
  set_up : (k : ℕ) (input : SetupInput) → Event
  loop_entered : (k : ℕ) → Event
  command_ended :
      (k : ℕ) (ended : Ended) (timed_out : Bool) (closing : Option Err) (now : ℕ) → Event
  behind_loop : (k : ℕ) (closing : Option Err) (now : ℕ) → Event
  panic : (k : ℕ) (e : Err) (closing : Option Err) (now : ℕ) → Event
  canceled : Event
  signaled : (i : ℕ) → Event
  node_canceled : (i : ℕ) → Event

unfoldable pub start_worker : ℕ → Run → Run
unfolding set_status
start_worker i r = record r {
  nodes = set_status_at NodeStatus.running i r.nodes;
  workers = r.workers ++ record { node = i; phase = starting } ∷ [];
  admitted = none;
}

-- The start of the node that was admitted.
unfoldable pub start_admitted : Option ℕ → Run → Run
unfolding start_worker
start_admitted none r = r
start_admitted (some i) r = start_worker i r

-- The tests of the loop's body behind `isReady`.
unfoldable pub admit : Config → ExecutionGraph → ℕ → Bool → Run → Run
unfolding running_count at_capacity
admit cfg g i ready r =
    if ready
    then (if r.state.canceled
        then r
        else if at_capacity cfg.max_active_runs (running_count g.nodes r.nodes)
        then r
        else record r { admitted = some i })
    else r

-- The body of the loop over the nodes, up to the start of the node.
unfoldable pub visit_node : Config → LogCheck → ExecutionGraph → ℕ → Run → Run
unfolding is_ready admit
visit_node cfg log g i r =
    if is_none (status_at r.nodes i)
    then (let (ready, d) = is_ready log g i r.nodes in admit cfg g i ready (record r { nodes = d }))
    else r

-- While a node is admitted, the loop is not at its next node.
unfoldable pub visit_next : Config → LogCheck → ExecutionGraph → ℕ → Option ℕ → Run → Run
unfolding visit_node
visit_next cfg log g i none r = visit_node cfg log g i r
visit_next cfg log g i (some k) r = r

unfoldable pub worker? : List Worker → ℕ → Option Worker
worker? [] k = none
worker? (w ∷ ws) zero = some w
worker? (w ∷ ws) (suc k) = worker? ws k

abbrev next_phase : List Worker → ℕ → Option Phase → List Worker
next_phase [] k p = []
next_phase (w ∷ ws) zero none = ws
next_phase (w ∷ ws) zero (some p) = record w { phase = p } ∷ ws
next_phase (w ∷ ws) (suc k) p = w ∷ next_phase ws k p

unfoldable pub settle : ℕ → List Worker → Run × Option Phase → Run
settle k ws (r, p) = record r { workers = next_phase ws k p }

module _ (cfg : Config) (log : LogCheck) (eval : EvalInt) (g : ExecutionGraph) where
  unfoldable pub is_set_up : Phase → Bool
  is_set_up starting = false
  is_set_up preparing = false
  is_set_up _ = true

  -- What an event does to the goroutine of node `i` in a phase; `none` where the phase waits for
  -- another event.
  unfoldable pub react : Event → Phase → ℕ → Run → Option (Run × Option Phase)
  unfolding is_set_up check_preconditions prepare proceed executed conclude panicked
  react (preconditions_checked k failure now) starting i r =
      some (check_preconditions failure now i r)
  react (set_up k input) preparing i r = some (prepare cfg eval input i r)
  react (loop_entered k) (looping ok) i r = some (proceed cfg ok i r)
  react (command_ended k ended timed_out closing now) executing i r =
      some (executed cfg log ended timed_out closing now i r)
  react (behind_loop k closing now) ending i r = some (conclude cfg closing now i r)
  react (panic k e closing now) p i r = some (panicked cfg (is_set_up p) closing now e i r)
  react _ _ i r = none

  unfoldable pub settle_if : ℕ → Run → Option (Run × Option Phase) → Run
  unfolding settle
  settle_if k r none = r
  settle_if k r (some next) = settle k r.workers next

  unfoldable pub react_at : Event → ℕ → Option Worker → Run → Run
  unfolding react settle_if
  react_at e k none r = r
  react_at e k (some w) r = settle_if k r (react e w.phase w.node r)

  unfoldable pub step : Event → Run → Run
  unfolding visit_next start_admitted react_at worker? signal cancel
  step (visit i) r = visit_next cfg log g i r.admitted r
  step start r = start_admitted r.admitted r
  step (preconditions_checked k failure now) r =
      react_at (preconditions_checked k failure now) k (worker? r.workers k) r
  step (set_up k input) r = react_at (set_up k input) k (worker? r.workers k) r
  step (loop_entered k) r = react_at (loop_entered k) k (worker? r.workers k) r
  step (command_ended k ended timed_out closing now) r =
      react_at (command_ended k ended timed_out closing now) k (worker? r.workers k) r
  step (behind_loop k closing now) r =
      react_at (behind_loop k closing now) k (worker? r.workers k) r
  step (panic k e closing now) r = react_at (panic k e closing now) k (worker? r.workers k) r
  step canceled r = record r { state = record r.state { canceled = true } }
  step (signaled i) r =
      if (r.nodes.at i).node_data.step.repeat_policy.repeat
      then r
      else replace i (signal (r.nodes.at i)) r
  step (node_canceled i) r = replace i (cancel (r.nodes.at i)) r

  unfoldable pub steps : List Event → Run → Run
  unfolding step
  steps [] r = r
  steps (e ∷ es) r = steps es (step e r)

  -- The calls of an event for each of the nodes, in the order of the nodes, among other events.
  abbrev pub Among : (ℕ → Event) → List ℕ → List Event → Type 0
  Among f [] es = Unit
  Among f (i ∷ is) [] = ⊥
  Among f (i ∷ is) (e ∷ es) = ((e ≡ f i) × Among f is es) ⊎ Among f (i ∷ is) es

  -- The rest of a run from the flag that `Signal` sets on: its calls of `Node.Signal`, among what
  -- the loop and the goroutines do.
  abbrev pub Signals : List Event → Type 0
  Signals = Among signaled g.nodes

  -- The same of `Cancel` and its calls of `Node.Cancel`.
  abbrev pub Cancels : List Event → Type 0
  Cancels = Among node_canceled g.nodes
