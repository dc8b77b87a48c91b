-- ===== src/Execution/Schedule/Ends.antt =====
-- What runs once a run is canceled, and behind `Cancel` and `Signal`.
use native.Mathlib.Decide.{ℕ_discrete}
use light_soar.Prelude.{
  ℕ, ◌<◌, Bool, true, false, some, List, [], ◌∷◌, if_split, count, ◌≡◌, ◌⊎◌, refl, ap, sym, ◌∙◌,
  subst, put_self, put_ne, arith, inl, inr,
}
use light_soar.Execution.Status.{is_running}
use light_soar.Execution.Data.{Node, set_status}
use light_soar.Execution.Graph.Defs.{ExecutionGraph}
use light_soar.Execution.Node.Defs.{LogCheck, EvalInt, cancel, signal}
use light_soar.Execution.Schedule.Defs.{status_at}
use light_soar.Execution.Schedule.Worker.{Config, Run, replace}
use light_soar.Execution.Schedule.Machine.{
  Event, canceled, signaled, node_canceled, start_worker, step, steps, Among, Cancels,
}
use light_soar.Execution.Schedule.Capacity.{Settles, Admits, Starts, step-Moves}

abbrev pub Runs : Run → ℕ → Type 0
Runs r j = is_running (status_at r.nodes j) ≡ true

-- A node that runs, or that the loop has admitted and starts next.
abbrev pub IsTaken : Run → ℕ → Type 0
IsTaken r j = Runs r j ⊎ (r.admitted ≡ some j)

abbrev pub repeats : Run → ℕ → Bool
repeats r j = (r.nodes.at j).node_data.step.repeat_policy.repeat

started_node :
    (i j : ℕ) (r : Run) → r.admitted ≡ some i → IsTaken (start_worker i r) j → IsTaken r j
unfolding start_worker
started_node i j r h (inr none_left) = absurd (cc)
started_node i j r h (inl ran) = elim (ℕ_discrete i j) [
  | yes same ↦ inr (h ∙ ap some same)
  | no other ↦
      inl (ap (λ n. is_running n.node_data.state.status) (sym (put_ne r.nodes i j _ other)) ∙ ran)
]

-- A node that was replaced by one that does not run.
stopped :
    (i j : ℕ) (n : Node) (r : Run)
    → is_running n.node_data.state.status ≡ false
    → Runs (replace i n r) j
    → (i ≡ j → ⊥)
stopped i j n r h ran same = absurd (ground (arith, h, ran, put_self r.nodes i j n same))

cancel-is_running : (n : Node) → is_running (cancel n).node_data.state.status ≡ false
unfolding cancel set_status
cancel-is_running n = ground arith

signal-is_running : (n : Node) → is_running (signal n).node_data.state.status ≡ false
unfolding signal set_status
signal-is_running n = ground arith

module _ (cfg : Config) (log : LogCheck) (eval : EvalInt) (g : ExecutionGraph) where
  -- One step of a run that is canceled.
  Moves-IsTaken :
      (r r' : Run) (j : ℕ)
      → Settles cfg log eval g r r' ⊎ (Admits cfg g r r' ⊎ Starts r r')
      → r.state.canceled ≡ true
      → IsTaken r' j
      → IsTaken r j
  Moves-IsTaken r r' j (inl q) h (inl ran) = inl (q.fewer.back j ran)
  Moves-IsTaken r r' j (inl q) h (inr k) = inr (sym q.same ∙ k)
  Moves-IsTaken r r' j (inr (inl s)) h taken = absurd (ground (arith, s.live, h))
  Moves-IsTaken r r' j (inr (inr s)) h taken =
      started_node s.node j r s.admitted (subst (λ x. IsTaken x j) s.now taken)

  Moves-admitted :
      (r r' : Run) (j : ℕ)
      → Settles cfg log eval g r r' ⊎ (Admits cfg g r r' ⊎ Starts r r')
      → r.state.canceled ≡ true
      → r'.admitted ≡ some j
      → r.admitted ≡ some j
  unfolding start_worker
  Moves-admitted r r' j (inl q) h k = sym q.same ∙ k
  Moves-admitted r r' j (inr (inl s)) h k = absurd (ground (arith, s.live, h))
  Moves-admitted r r' j (inr (inr s)) h k = absurd (ground (arith, ap (λ x. x.admitted) s.now, k))

  Moves-canceled :
      (r r' : Run)
      → Settles cfg log eval g r r' ⊎ (Admits cfg g r r' ⊎ Starts r r')
      → r.state.canceled ≡ true
      → r'.state.canceled ≡ true
  unfolding start_worker
  Moves-canceled r r' (inl q) h = q.stays h
  Moves-canceled r r' (inr (inl s)) h = absurd (ground (arith, s.live, h))
  Moves-canceled r r' (inr (inr s)) h = ap (λ x. x.state.canceled) s.now ∙ h

  steps-IsTaken :
      (es : List Event) (r : Run) (j : ℕ)
      → r.state.canceled ≡ true
      → IsTaken (steps cfg log eval g es r) j
      → IsTaken r j
  unfolding steps
  steps-IsTaken [] r j h taken = taken
  steps-IsTaken (e ∷ es) r j h taken =
      let r' = step cfg log eval g e r in
      let move = step-Moves cfg log eval g e r in
      Moves-IsTaken r r' j move h (steps-IsTaken es r' j (Moves-canceled r r' move h) taken)

  -- Once a run is canceled, the loop admits no node: a node that runs after any events, in whatever
  -- order, ran before them, or it is the one node that the loop had admitted and not yet started.
  pub canceled_starts_nothing :
      (es : List Event) (r : Run)
      → r.state.canceled ≡ true
      → (j : ℕ) → is_running (status_at (steps cfg log eval g es r).nodes j) ≡ true
      → (is_running (status_at r.nodes j) ≡ true) ⊎ (r.admitted ≡ some j)
  canceled_starts_nothing es r h j ran = steps-IsTaken es r j h (inl ran)

  -- A node that is taken behind an event that ends it was admitted before.
  ended :
      (e : Event) (es : List Event) (r : Run) (j : ℕ)
      → r.state.canceled ≡ true
      → (Runs (step cfg log eval g e r) j → ⊥)
      → Runs (steps cfg log eval g es (step cfg log eval g e r)) j
      → r.admitted ≡ some j
  ended e es r j h ends ran =
      let r' = step cfg log eval g e r in
      let move = step-Moves cfg log eval g e r in
      elim (steps-IsTaken es r' j (Moves-canceled r r' move h) (inl ran)) [
        | inl runs ↦ absurd (ends runs)
        | inr k ↦ Moves-admitted r r' j move h k
      ]

  canceled_once :
      (i : ℕ) (es : List Event) (r : Run) (j : ℕ)
      → r.state.canceled ≡ true
      → i ≡ j
      → Runs (steps cfg log eval g es (step cfg log eval g (node_canceled i) r)) j
      → r.admitted ≡ some j
  unfolding step
  canceled_once i es r j h same =
      ended (node_canceled i) es r j h
        (λ runs. stopped i j _ r (cancel-is_running (r.nodes.at i)) runs same)

  Among-cancels :
      (is : List ℕ) (es : List Event) (r : Run) (j : ℕ)
      → r.state.canceled ≡ true
      → Among cfg log eval g node_canceled is es
      → 0 < count j is
      → Runs (steps cfg log eval g es r) j
      → r.admitted ≡ some j
  unfolding steps
  Among-cancels [] es r j h calls m ran = absurd (omega (arith, m))
  Among-cancels (i ∷ is) [] r j h calls m ran = absurd (calls)
  Among-cancels (i ∷ is) (e ∷ es) r j h (inl (this, calls)) m ran = elim (ℕ_discrete i j) [
    | yes same ↦
        canceled_once i es r j h same
          (subst (λ x. Runs (steps cfg log eval g es (step cfg log eval g x r)) j) this ran)
    | no other ↦
        let move = step-Moves cfg log eval g e r in
        Moves-admitted r _ j move h
          (Among-cancels is es _ j (Moves-canceled r _ move h) calls (ground (arith, m, other)) ran)
  ]
  Among-cancels (i ∷ is) (e ∷ es) r j h (inr calls) m ran =
      let move = step-Moves cfg log eval g e r in
      Moves-admitted r _ j move h
        (Among-cancels (i ∷ is) es _ j (Moves-canceled r _ move h) calls m ran)

  -- When `Cancel` sets the flag and cancels each node of the graph, while the loop and the
  -- goroutines go on in any order in between and afterwards, no node of the graph has the status of a
  -- running one in the end, but for the one node that the loop had admitted when the flag was set.
  pub cancel_run_ends :
      (es : List Event) (r : Run) (j : ℕ)
      → Cancels cfg log eval g es
      → 0 < count j g.nodes
      → is_running (status_at (steps cfg log eval g (canceled ∷ es) r).nodes j) ≡ true
      → r.admitted ≡ some j
  unfolding steps step
  cancel_run_ends es r j calls m ran =
      Among-cancels g.nodes es (record r { state = record r.state { canceled = true } }) j refl
        calls m ran

  signaled_once :
      (j : ℕ) (r : Run) → repeats r j ≡ false → Runs (step cfg log eval g (signaled j) r) j → ⊥
  unfolding step
  signaled_once j r once =
      if_split (λ s. Runs s j → ⊥) (repeats r j) (λ h _. absurd (ground (arith, h, once)))
        (λ _ ran. stopped j j _ r (signal-is_running (r.nodes.at j)) ran refl)

  -- A signal of a canceled run to a node without a repeat policy ends it: whatever the loop and the
  -- goroutines do from there on, in whatever order, the node has the status of a running one only if
  -- the loop had admitted it before the signal and not yet started it.
  pub signal_run_ends :
      (es : List Event) (r : Run) (j : ℕ)
      → r.state.canceled ≡ true
      → repeats r j ≡ false
      → is_running (status_at (steps cfg log eval g (signaled j ∷ es) r).nodes j) ≡ true
      → r.admitted ≡ some j
  unfolding steps
  signal_run_ends es r j h once = ended (signaled j) es r j h (signaled_once j r once)
