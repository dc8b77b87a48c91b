-- ===== src/Execution/Schedule/Progress.antt =====
-- That a run does not get stuck.
use light_soar.Prelude.{
  ℕ, zero, suc, ◌<◌, ℤ, pos, negsuc, Bool, true, false, Option, none, some, List, [], ◌∷◌, if_ind,
  if_split, count, put, ◌≡◌, ◌⊎◌, inl, inr, refl, ap, sym, subst, ◌∙◌, put_self, arith, Bool-cases,
  any_member,
}
use light_soar.Execution.Status.{
  NodeStatus, Err, is_none, is_running, upstream_failed, upstream_skipped,
}
use light_soar.Execution.Data.{Node, set_status, set_error}
use light_soar.Execution.Graph.Defs.{ExecutionGraph}
use light_soar.Execution.Graph.Linked.{Edge, IsOrdered}
use light_soar.Execution.Graph.Cycles.{topological}
use light_soar.Execution.Graph.Ranks.{IsComplete, rank, rank-lt}
use light_soar.Execution.Node.Defs.{LogCheck, EvalInt}
use light_soar.Execution.Schedule.Defs.{
  Nodes, status_at, set_status_at, block, ask, check_status, check_deps, is_ready, running_count,
  at_capacity,
}
use light_soar.Execution.Schedule.Worker.{Config, Run}
use light_soar.Execution.Schedule.Machine.{
  visit, start, start_worker, start_admitted, admit, visit_node, visit_next, step, steps,
}
use light_soar.Execution.Schedule.Statuses.{status_of, Back, put_other-Back}
use light_soar.Execution.Schedule.Ready.{is_ready-Back, check_status-Back, check_deps-Back}

-- Neither done nor failed yet.
abbrev pub is_pending : NodeStatus → Bool
is_pending NodeStatus.none = true
is_pending NodeStatus.running = true
is_pending _ = false

pending-cases : (s : NodeStatus) → is_none s ≡ false → is_running s ≡ false → is_pending s ≡ false
pending-cases NodeStatus.none h k = h
pending-cases NodeStatus.running h k = k
pending-cases NodeStatus.error h k = refl
pending-cases NodeStatus.cancel h k = refl
pending-cases NodeStatus.success h k = refl
pending-cases NodeStatus.skipped h k = refl

stays_false :
    (p : NodeStatus → Bool) {d d' : Nodes} (j : ℕ)
    → Back p d d'
    → p (status_at d j) ≡ false
    → p (status_at d' j) ≡ false
stays_false p {d} {d'} j b h = elim (Bool-cases (p (status_at d' j))) [
  | inl now ↦ absurd (ground (arith, b.back j now, h))
  | inr not_now ↦ not_now
]

module _ (log : LogCheck) (i : ℕ) where
  -- The answer stays as it is, or the node gets a status.
  abbrev Settled : Bool → Bool × Nodes → Type 0
  Settled ready r = (r.0 ≡ ready) ⊎ (is_none (status_at r.1 i) ≡ false)

  written :
      (n : Node) (d : Nodes)
      → is_none (status_of n) ≡ false
      → is_none (status_at (put d i n) i) ≡ false
  written n d h = ap (λ m. is_none (status_of m)) (put_self d i i n refl) ∙ h

  blocked :
      (s : NodeStatus) (e : Option Err) (d : Nodes)
      → is_none s ≡ false
      → is_none (status_at (block s e i d).1 i) ≡ false
  unfolding block set_status set_error
  blocked s e d h =
      let marked = set_status_at s i d in
      written _ marked (ap (λ n. is_none (status_of n)) (put_self d i i _ refl) ∙ h)

  check_status-Settled :
      (s : NodeStatus) (dep : ℕ) (ready : Bool) (d : Nodes)
      → is_pending s ≡ false
      → Settled ready (check_status log s i dep ready d)
  unfolding check_status set_status
  check_status-Settled NodeStatus.success dep ready d h = inl refl
  check_status-Settled NodeStatus.error dep ready d h =
      if_ind (Settled ready) (ask log dep d).0 (inl refl)
        (inr (blocked NodeStatus.cancel (some upstream_failed) (ask log dep d).1 refl))
  check_status-Settled NodeStatus.skipped dep ready d h =
      if_ind (Settled ready) (ask log dep d).0 (inl refl)
        (inr (blocked NodeStatus.skipped (some upstream_skipped) (ask log dep d).1 refl))
  check_status-Settled NodeStatus.cancel dep ready d h = inr (written _ d refl)
  check_status-Settled NodeStatus.none dep ready d h = absurd (cc)
  check_status-Settled NodeStatus.running dep ready d h = absurd (cc)

  check_deps-Settled :
      (deps : List ℕ) (ready : Bool) (d : Nodes)
      → ((j : ℕ) → 0 < count j deps → is_pending (status_at d j) ≡ false)
      → Settled ready (check_deps log i deps ready d)
  unfolding check_deps
  check_deps-Settled [] ready d h = inl refl
  check_deps-Settled (dep ∷ deps) ready d h =
      let (ready', d') = check_status log (status_at d dep) i dep ready d in
      let rest = check_deps-Settled deps ready' d' (λ j m.
        stays_false is_pending j
          (check_status-Back is_pending refl refl log i (status_at d dep) dep ready d)
          (h j (ground (arith, m)))) in
      elim rest [
        | inr done ↦ inr done
        | inl same ↦
            elim (check_status-Settled (status_at d dep) dep ready d (h dep (ground arith))) [
              | inl first ↦ inl (same ∙ first)
              | inr marked ↦ inr (
                  stays_false is_none i (check_deps-Back is_none refl refl log i deps ready' d')
                    marked)
            ]
      ]

module _ (cfg : Config) (log : LogCheck) (eval : EvalInt) (g : ExecutionGraph) where
  started :
      (a : Option ℕ) (i : ℕ) (r : Run)
      → is_none (status_at r.nodes i) ≡ false
      → is_none (status_at (start_admitted a r).nodes i) ≡ false
  unfolding start_admitted start_worker set_status
  started none i r h = h
  started (some k) i r h = stays_false is_none i (put_other-Back is_none r.nodes k _ refl) h

  abbrev IsTakenOn : ℕ → Run → Type 0
  IsTakenOn i s = is_none (status_at (start_admitted s.admitted s).nodes i) ≡ false

  admitted_one : (i : ℕ) (r : Run) → IsTakenOn i (record r { admitted = some i })
  unfolding start_admitted start_worker set_status
  admitted_one i r = written log i _ r.nodes refl

  taken_on :
      (i : ℕ) (ready : Bool) (r : Run)
      → r.state.canceled ≡ false
      → at_capacity cfg.max_active_runs (running_count g.nodes r.nodes) ≡ false
      → (ready ≡ true) ⊎ (is_none (status_at r.nodes i) ≡ false)
      → IsTakenOn i (admit cfg g i ready r)
  unfolding admit
  taken_on i true r live room h =
      if_split (IsTakenOn i) r.state.canceled (λ e. absurd (ground (arith, e, live)))
        (λ _.
          if_split (IsTakenOn i) (at_capacity cfg.max_active_runs (running_count g.nodes r.nodes))
            (λ e. absurd (ground (arith, e, room))) (λ _. admitted_one i r))
  taken_on i false r live room (inl e) = absurd (cc)
  taken_on i false r live room (inr done) = started r.admitted i r done

  -- A visit of a node that waits only for nodes that are done takes it on.
  visited :
      (i : ℕ) (r : Run)
      → is_none (status_at r.nodes i) ≡ true
      → r.state.canceled ≡ false
      → at_capacity cfg.max_active_runs (running_count g.nodes (is_ready log g i r.nodes).1) ≡ false
      → ((j : ℕ) → Edge g j i → is_pending (status_at r.nodes j) ≡ false)
      → IsTakenOn i (visit_node cfg log g i r)
  unfolding visit_node is_ready
  visited i r waits live room deps =
      let (ready, d) = is_ready log g i r.nodes in
      if_split (IsTakenOn i) (is_none (status_at r.nodes i))
        (λ _.
          taken_on i ready (record r { nodes = d }) live room
            (check_deps-Settled log i (g.to.at i) true r.nodes deps))
        (λ e. absurd (ground (arith, e, waits)))

  -- A node without a status all of whose dependencies have one.
  first_waiting :
      (complete : IsComplete g) (vs : List ℕ) (ordered : IsOrdered g vs)
      → ((v : ℕ) → count v vs ≡ count v g.nodes)
      → (d : Nodes) (n v : ℕ) → rank v vs < n
      → 0 < count v g.nodes
      → is_none (status_at d v) ≡ true
      → (i : ℕ) × (0 < count i g.nodes)
        × (is_none (status_at d i) ≡ true)
        × ((j : ℕ) → Edge g j i → is_none (status_at d j) ≡ false)
  first_waiting complete vs ordered same d zero v h m waits = absurd (omega arith)
  first_waiting complete vs ordered same d (suc n) v h m waits =
      elim (any_member (λ u. is_none (status_at d u)) (g.to.at v)) [
        | inr all_done ↦ (v, m, waits, all_done)
        | inl (u, e, waits_too) ↦
            let lower = rank-lt g u v vs ordered e (omega (arith, same v)) in
            first_waiting complete vs ordered same d n u (omega arith)
              (omega (arith, complete.linked.origin u v e)) waits_too
      ]

  none_running :
      (is : List ℕ) (d : Nodes)
      → ((j : ℕ) → is_running (status_at d j) ≡ false)
      → running_count is d ≡ 0
  unfolding running_count
  none_running [] d h = refl
  none_running (i ∷ is) d h = ground (arith, h i, none_running is d h)

  room_for_one : (z : ℤ) → at_capacity z 0 ≡ false
  unfolding at_capacity
  room_for_one (pos zero) = refl
  room_for_one (pos (suc m)) = ground arith
  room_for_one (negsuc m) = refl

  next_visit :
      (i : ℕ) (r : Run)
      → r.admitted ≡ none
      → IsTakenOn i (visit_node cfg log g i r)
      → IsTakenOn i (visit_next cfg log g i r.admitted r)
  unfolding visit_next
  next_visit i r free h = subst (λ a. IsTakenOn i (visit_next cfg log g i a r)) (sym free) h

  -- A run that is not canceled does not get stuck: in a complete graph, while no node runs or is
  -- admitted and some node has no status yet, there is such a node that the next visit of the loop
  -- starts, cancels or skips.
  pub visit_progress :
      IsComplete g
      → (r : Run) → r.state.canceled ≡ false
      → r.admitted ≡ none
      → ((j : ℕ) → is_running (status_at r.nodes j) ≡ false)
      → (v : ℕ) → 0 < count v g.nodes
      → is_none (status_at r.nodes v) ≡ true
      → (i : ℕ) × (0 < count i g.nodes)
        × (is_none (status_at r.nodes i) ≡ true)
        × (is_none (status_at (steps cfg log eval g (visit i ∷ start ∷ []) r).nodes i) ≡ false)
  unfolding steps step
  visit_progress complete r live free quiet v m waits =
      let (vs, ordered, same) = topological g complete.linked complete.accepted in
      let (i, mi, wi, deps) =
        first_waiting complete vs ordered same r.nodes (suc (rank v vs)) v (omega arith) m waits in
      let still_quiet = λ (j : ℕ).
        stays_false is_running j (is_ready-Back is_running refl refl log i g r.nodes) (quiet j) in
      let alone = none_running g.nodes (is_ready log g i r.nodes).1 still_quiet in
      let room = ap (at_capacity cfg.max_active_runs) alone ∙ room_for_one cfg.max_active_runs in
      (
        i,
        mi,
        wi,
        next_visit i r free (
            visited i r wi live room
              (λ j e. pending-cases (status_at r.nodes j) (deps j e) (quiet j))),
      )
