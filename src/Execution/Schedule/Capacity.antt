-- ===== src/Execution/Schedule/Capacity.antt =====
-- How many nodes run at a time.
use light_soar.Prelude.{
  ℕ, suc, ◌+◌, ◌≤◌, ◌<◌, pos, true, false, Option, none, some, List, [], ◌∷◌, if_ind, if_split,
  count, ◌≡◌, refl, ap, sym, ◌∙◌, arith, inl, inr, ◌⊎◌,
}
use light_soar.Execution.Status.{NodeStatus, is_running, is_none}
use light_soar.Execution.Data.{set_status}
use light_soar.Execution.Graph.Defs.{ExecutionGraph}
use light_soar.Execution.Node.Defs.{LogCheck, EvalInt, signal, cancel}
use light_soar.Execution.Schedule.Defs.{
  Nodes, status_at, set_status_at, is_ready, running_count, at_capacity,
}
use light_soar.Execution.Schedule.Worker.{
  Config, Run, replace, Worker, Phase, starting, preparing, executing, ending, looping,
}
use light_soar.Execution.Schedule.Machine.{
  Event, visit, preconditions_checked, set_up, loop_entered, command_ended, behind_loop, panic,
  canceled, signaled, node_canceled, start, start_worker, start_admitted, admit, visit_node,
  visit_next, react, react_at, settle_if, step, steps, worker?, is_set_up, settle,
}
use light_soar.Execution.Schedule.Statuses.{status_of, put-Back, Back, Back-refl}
use light_soar.Execution.Schedule.Ready.{is_ready-Back}
use light_soar.Execution.Schedule.Quiet.{
  Quiet, still, check_preconditions-Quiet, prepare-Quiet, proceed-Quiet, executed-Quiet,
  conclude-Quiet, panicked-Quiet,
}

-- The loop admits a node while the run is not canceled and there is room.
pub record Admits (cfg : Config) (g : ExecutionGraph) (r r' : Run) : Type 0 where
  pub node : ℕ
  pub fewer : Back is_running r.nodes r'.nodes
  pub admitted : r'.admitted ≡ some node
  pub live : r.state.canceled ≡ false
  pub room : at_capacity cfg.max_active_runs (running_count g.nodes r'.nodes) ≡ false

-- The loop starts the node that it has admitted.
pub record Starts (r r' : Run) : Type 0 where
  pub node : ℕ
  pub admitted : r.admitted ≡ some node
  pub now : r' ≡ start_worker node r

module _ (cfg : Config) (log : LogCheck) (eval : EvalInt) (g : ExecutionGraph) where
  -- Neither happens, and the run stays canceled if it was.
  pub record Settles (r r' : Run) : Type 0 where
    pub fewer : Back is_running r.nodes r'.nodes
    pub stays : r.state.canceled ≡ true → r'.state.canceled ≡ true
    pub same : r'.admitted ≡ r.admitted

  Quiet-Settles : {r r' : Run} → Quiet r r' → Settles r r'
  Quiet-Settles q = record {
    fewer = q.0;
    stays = λ h. ap (λ x. x.0) q.1 ∙ h;
    same = ap (λ x. x.1) q.1;
  }

  abbrev Moves : Run → Run → Type 0
  Moves r r' = Settles r r' ⊎ (Admits cfg g r r' ⊎ Starts r r')

  visited : ℕ → Run → Run
  visited i r = record r { nodes = (is_ready log g i r.nodes).1 }

  visited-Quiet : (i : ℕ) (r : Run) → Quiet r (visited i r)
  unfolding visited
  visited-Quiet i r = (is_ready-Back is_running refl refl log i g r.nodes, refl)

  visit_node-Moves : (i : ℕ) (r : Run) → Moves r (visit_node cfg log g i r)
  unfolding visit_node visited admit
  visit_node-Moves i r =
      let quiet : Moves r (visited i r) = inl (Quiet-Settles (visited-Quiet i r)) in
      if_ind (Moves r) (is_none (status_at r.nodes i))
        (if_ind (Moves r) (is_ready log g i r.nodes).0
          (if_split (Moves r) r.state.canceled (λ h. quiet)
            (λ live.
              if_split (Moves r)
                (at_capacity cfg.max_active_runs
                  (running_count g.nodes (is_ready log g i r.nodes).1))
                (λ h. quiet)
                (λ room. inr (
                  inl (record {
                    node = i;
                    fewer = is_ready-Back is_running refl refl log i g r.nodes;
                    admitted = refl;
                    live = live;
                    room = room;
                  })))))
          quiet)
        (inl (Quiet-Settles (still r)))

  visit_next-Moves : (i : ℕ) (a : Option ℕ) (r : Run) → Moves r (visit_next cfg log g i a r)
  unfolding visit_next
  visit_next-Moves i none r = visit_node-Moves i r
  visit_next-Moves i (some k) r = inl (Quiet-Settles (still r))

  start_admitted-Moves : (a : Option ℕ) (r : Run) → r.admitted ≡ a → Moves r (start_admitted a r)
  unfolding start_admitted
  start_admitted-Moves none r h = inl (Quiet-Settles (still r))
  start_admitted-Moves (some i) r h = inr (inr (record { node = i; admitted = h; now = refl }))

  abbrev IsQuietMove : Run → Option (Run × Option Phase) → Type 0
  IsQuietMove r none = Unit
  IsQuietMove r (some n) = Quiet r n.0

  react-Quiet :
      (e : Event) (p : Phase) (i : ℕ) (r : Run) → IsQuietMove r (react cfg log eval g e p i r)
  unfolding react
  react-Quiet (preconditions_checked k failure now) starting i r =
      check_preconditions-Quiet failure now i r
  react-Quiet (set_up k input) preparing i r = prepare-Quiet cfg eval input i r
  react-Quiet (loop_entered k) (looping ok) i r = proceed-Quiet cfg ok i r
  react-Quiet (command_ended k ended timed_out closing now) executing i r =
      executed-Quiet cfg log ended timed_out closing now i r
  react-Quiet (behind_loop k closing now) ending i r = conclude-Quiet cfg closing now i r
  react-Quiet (panic k e closing now) p i r =
      panicked-Quiet cfg (is_set_up cfg log eval g p) closing now e i r
  react-Quiet _ _ i r = record {}

  settle_if-Quiet :
      (k : ℕ) (r : Run) (n : Option (Run × Option Phase))
      → IsQuietMove r n
      → Quiet r (settle_if cfg log eval g k r n)
  unfolding settle_if settle
  settle_if-Quiet k r none q = still r
  settle_if-Quiet k r (some n) q = q

  react_at-Quiet :
      (e : Event) (k : ℕ) (w : Option Worker) (r : Run) → Quiet r (react_at cfg log eval g e k w r)
  unfolding react_at
  react_at-Quiet e k none r = still r
  react_at-Quiet e k (some w) r = settle_if-Quiet k r _ (react-Quiet e w.phase w.node r)

  at_node :
      (e : Event) (k : ℕ) (r : Run) → Moves r (react_at cfg log eval g e k (worker? r.workers k) r)
  at_node e k r = inl (Quiet-Settles (react_at-Quiet e k (worker? r.workers k) r))

  stopped-Back :
      (i : ℕ) (r : Run) → Back is_running r.nodes (replace i (signal (r.nodes.at i)) r).nodes
  unfolding signal set_status
  stopped-Back i r = put-Back is_running r.nodes i _ (
      if_ind (λ n. is_running (status_of n) ≡ true → is_running (status_at r.nodes i) ≡ true)
        (is_running (status_at r.nodes i)) (λ h. absurd (ground arith)) (λ h. h))

  canceled-Back :
      (i : ℕ) (r : Run) → Back is_running r.nodes (replace i (cancel (r.nodes.at i)) r).nodes
  unfolding cancel set_status
  canceled-Back i r = put-Back is_running r.nodes i _ (
      if_ind (λ n. is_running (status_of n) ≡ true → is_running (status_at r.nodes i) ≡ true)
        (is_running (status_at r.nodes i)) (λ h. absurd (ground arith)) (λ h. h))

  pub step-Moves : (e : Event) (r : Run) → Moves r (step cfg log eval g e r)
  unfolding step
  step-Moves (visit i) r = visit_next-Moves i r.admitted r
  step-Moves start r = start_admitted-Moves r.admitted r refl
  step-Moves (preconditions_checked k failure now) r =
      at_node (preconditions_checked k failure now) k r
  step-Moves (set_up k input) r = at_node (set_up k input) k r
  step-Moves (loop_entered k) r = at_node (loop_entered k) k r
  step-Moves (command_ended k ended timed_out closing now) r =
      at_node (command_ended k ended timed_out closing now) k r
  step-Moves (behind_loop k closing now) r = at_node (behind_loop k closing now) k r
  step-Moves (panic k e closing now) r = at_node (panic k e closing now) k r
  step-Moves canceled r =
      inl (record { fewer = Back-refl is_running r.nodes; stays = λ h. refl; same = refl })
  step-Moves (signaled i) r =
      if_ind (Moves r) (r.nodes.at i).node_data.step.repeat_policy.repeat
        (inl (Quiet-Settles (still r)))
        (inl (record { fewer = stopped-Back i r; stays = λ h. h; same = refl }))
  step-Moves (node_canceled i) r =
      inl (record { fewer = canceled-Back i r; stays = λ h. h; same = refl })

running_count-Back :
    (is : List ℕ) (d d' : Nodes) → Back is_running d d' → running_count is d' ≤ running_count is d
unfolding running_count
running_count-Back [] d d' b = omega arith
running_count-Back (i ∷ is) d d' b = ground (arith, b.back i, running_count-Back is d d' b)

running_count-started :
    (is : List ℕ) (i : ℕ) (d : Nodes)
    → running_count is (set_status_at NodeStatus.running i d) ≤ count i is + running_count is d
unfolding running_count set_status
running_count-started [] i d = omega arith
running_count-started (j ∷ is) i d = ground (arith, running_count-started is i d)

room_left : (m n : ℕ) → at_capacity (pos (suc m)) n ≡ false → n < suc m
unfolding at_capacity
room_left m n h = ground arith

abbrev admitted_count : Option ℕ → ℕ
admitted_count none = 0
admitted_count (some i) = 1

-- The nodes that run, and the one that is admitted.
abbrev pub occupied : ExecutionGraph → Run → ℕ
occupied g r = running_count g.nodes r.nodes + admitted_count r.admitted

module _ (cfg : Config) (log : LogCheck) (eval : EvalInt) (g : ExecutionGraph) (m : ℕ)
    (limited : cfg.max_active_runs ≡ pos (suc m)) (distinct : (v : ℕ) → count v g.nodes ≤ 1) where
  Starts-occupied :
      (r : Run) (i : ℕ) → r.admitted ≡ some i → occupied g (start_worker i r) ≤ occupied g r
  unfolding start_worker
  Starts-occupied r i h =
      let one = ap admitted_count h in
      omega (arith, one, running_count-started g.nodes i r.nodes, distinct i)

  Moves-capacity :
      (r r' : Run)
      → Settles cfg log eval g r r' ⊎ (Admits cfg g r r' ⊎ Starts r r')
      → occupied g r ≤ suc m
      → occupied g r' ≤ suc m
  Moves-capacity r r' (inl q) h =
      let same = ap admitted_count q.same in
      omega (arith, running_count-Back g.nodes r.nodes r'.nodes q.fewer, same, h)
  Moves-capacity r r' (inr (inl s)) h =
      let free =
        room_left m _
          (ap (λ c. at_capacity c (running_count g.nodes r'.nodes)) (sym limited) ∙ s.room) in
      let one = ap admitted_count s.admitted in omega (arith, free, one)
  Moves-capacity r r' (inr (inr s)) h =
      let now = ap (occupied g) s.now in omega (arith, now, Starts-occupied r s.node s.admitted, h)

  -- With `maxActiveRuns` set, nodes that occur once in the graph, and no more than `maxActiveRuns`
  -- nodes running or past the loop's tests at the start, no more than that run or are past the tests
  -- after any events in any order.
  pub steps_capacity :
      (es : List Event) (r : Run)
      → occupied g r ≤ suc m
      → occupied g (steps cfg log eval g es r) ≤ suc m
  unfolding steps
  steps_capacity [] r h = h
  steps_capacity (e ∷ es) r h =
      steps_capacity es (step cfg log eval g e r)
        (Moves-capacity r (step cfg log eval g e r) (step-Moves cfg log eval g e r) h)
