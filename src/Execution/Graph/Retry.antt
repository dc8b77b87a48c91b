-- ===== src/Execution/Graph/Retry.antt =====
-- Which nodes `setupRetry` resets.
use native.Mathlib.Decide.{ℕ_discrete}
use light_soar.Prelude.{
  ℕ, zero, suc, ◌<◌, ◌==◌, Bool, true, false, ◌||◌, List, [], ◌∷◌, ◌++◌, if◌then◌else◌, length,
  count, GoMap, put, empty, ◌≡◌, refl, sym, subst, ◌∙◌, ap, ◌⊎◌, inl, inr, arith, Bool-cases,
  length-le_of_count, put_self, put_ne,
}
use light_soar.Execution.Data.{Node, zero_state, clear_state}
use light_soar.Execution.Graph.Defs.{ExecutionGraph, depends}
use light_soar.Execution.Graph.Linked.{Edge, IsLinked}
use light_soar.Execution.Graph.Cycles.{topological}
use light_soar.Execution.Graph.Construct.{
  Retrying, cleared, is_failed, no_retry, roots, visit, pass_on, sweep, sweeps, swept, setup_retry,
}
use light_soar.Execution.Graph.Sweeps.{IsReset}
use light_soar.Execution.Graph.Resets.{failed_resets, sweeps_end}
use light_soar.Execution.Graph.Ranks.{IsComplete, rank, Trail, start, onward, Trail-snoc, from_root}

module _ (g : ExecutionGraph) where
  -- `v` or something that it depends on, however far, had failed or was canceled.
  abbrev pub IsTainted : ℕ → Type 0
  IsTainted v = (u : ℕ) × (is_failed g u ≡ true) × Trail g u v

  -- What was done to the nodes so far is right.
  record IsSound (s : Retrying) : Type 0 where
    marks : (v : ℕ) → s.retry.at v ≡ true → IsTainted v
    kept :
        (v : ℕ) → (s.dict.at v ≡ g.dict.at v) ⊎ IsTainted v × (s.dict.at v ≡ cleared (g.dict.at v))

  abbrev reset_at : Retrying → ℕ → Retrying
  reset_at s u = record { dict = put s.dict u (cleared (s.dict.at u)); retry = put s.retry u true }

  reset_at-kept :
      (s : Retrying) (u v : ℕ)
      → IsSound s
      → IsTainted u
      → ((reset_at s u).dict.at v ≡ g.dict.at v)
        ⊎ IsTainted v × ((reset_at s u).dict.at v ≡ cleared (g.dict.at v))
  unfolding clear_state
  reset_at-kept s u v h t = elim (ℕ_discrete u v) [
    | yes same ↦
        let now = put_self s.dict u v (cleared (s.dict.at u)) same in
        inr (subst IsTainted same t, now ∙ again (h.kept u) ∙ ap (λ w. cleared (g.dict.at w)) same)
    | no other ↦
        let now = put_ne s.dict u v (cleared (s.dict.at u)) other in
        elim (h.kept v) [ inl old ↦ inl (now ∙ old) | inr (tv, e) ↦ inr (tv, now ∙ e) ]
  ]
    where
      again :
          (s.dict.at u ≡ g.dict.at u) ⊎ IsTainted u × (s.dict.at u ≡ cleared (g.dict.at u))
          → cleared (s.dict.at u) ≡ cleared (g.dict.at u)
      again (inl e) = ap cleared e
      again (inr (tu, e)) = ap cleared e

  reset_at-IsSound : (s : Retrying) (u : ℕ) → IsSound s → IsTainted u → IsSound (reset_at s u)
  reset_at-IsSound s u h t = record {
    marks = λ v m. elim (ℕ_discrete u v) [
      | yes same ↦ subst IsTainted same t
      | no other ↦ h.marks v (sym (put_ne s.retry u v true other) ∙ m)
    ];
    kept = λ v. reset_at-kept s u v h t;
  }

  visit-IsSound : (u : ℕ) (s : Retrying) → IsSound s → IsSound (visit g u s)
  unfolding visit clear_state
  visit-IsSound u s h = elim (Bool-cases (s.retry.at u || is_failed g u)) [
    | inr cold ↦ rw cold h
    | inl hot ↦ rw hot (reset_at-IsSound s u h (taint hot))
  ]
    where
      taint : s.retry.at u || is_failed g u ≡ true → IsTainted u
      taint hot = elim (Bool-cases (s.retry.at u)) [
        | inl marked ↦ h.marks u marked
        | inr fresh ↦ (u, ground arith, start)
      ]

  module _ (linked : IsLinked g) where
    pass_on-IsSound :
        (u : ℕ) (vs : List ℕ) (dict : GoMap Node) (retry : GoMap Bool)
        → ((v : ℕ) → 0 < count v vs → Edge g u v)
        → IsSound (record { dict = dict; retry = retry })
        → IsSound (record { dict = dict; retry = pass_on g u vs retry })
    unfolding pass_on
    pass_on-IsSound u [] dict retry h s = s
    pass_on-IsSound u (x ∷ vs) dict retry h s =
        pass_on-IsSound u vs dict (if retry.at u then put retry x true else retry)
          (λ v m. h v (omega arith))
          (elim (Bool-cases (retry.at u)) [
            | inr cold ↦ rw cold s
            | inl hot ↦ rw hot (record {
              marks = λ v m. elim (ℕ_discrete x v) [
                | yes same ↦
                    let (w, f, p) = s.marks u hot in (w, f, Trail-snoc g p (h v (ground arith)))
                | no other ↦ s.marks v (sym (put_ne retry x v true other) ∙ m)
              ];
              kept = s.kept;
            })
          ])

    sweep-IsSound : (us next : List ℕ) (s : Retrying) → IsSound s → IsSound (sweep g us next s).1
    unfolding sweep
    sweep-IsSound [] next s h = h
    sweep-IsSound (u ∷ us) next s h =
        let t = visit g u s in
        sweep-IsSound us (next ++ g.from.at u)
          (record t { retry = pass_on g u (g.from.at u) t.retry })
          (pass_on-IsSound u (g.from.at u) t.dict t.retry
            (λ v m. omega (arith, linked.converse u v)) (visit-IsSound u s h))

    sweeps-IsSound :
        (fuel : ℕ) (us : List ℕ) (s : Retrying) → IsSound s → IsSound (sweeps g fuel us s).1
    unfolding sweeps
    sweeps-IsSound zero us s h = h
    sweeps-IsSound (suc fuel) [] s h = h
    sweeps-IsSound (suc fuel) (u ∷ us) s h =
        let (next, s') = sweep g (u ∷ us) [] s in
        sweeps-IsSound fuel next s' (sweep-IsSound (u ∷ us) [] s h)

cleared_of_zero : (n : Node) → n.node_data.state ≡ zero_state → cleared n ≡ n
unfolding clear_state
cleared_of_zero n h = λ i. record n { node_data = record n.node_data { state = sym h i } }

count-roots :
    (g : ExecutionGraph) (vs : List ℕ) (v : ℕ)
    → count v (roots g vs) ≡ (if length (depends g v) == 0 then count v vs else 0)
unfolding roots
count-roots g [] v = ground arith
count-roots g (x ∷ vs) v = elim (ℕ_discrete x v) [
  | yes same ↦ rw same (ground (arith, count-roots g vs v))
  | no other ↦ ground (arith, count-roots g vs v)
]

no_retry-false :
    (g : ExecutionGraph) (vs : List ℕ) (retry : GoMap Bool) (v : ℕ)
    → retry.at v ≡ false
    → (no_retry g vs retry).at v ≡ false
unfolding no_retry
no_retry-false g [] retry v h = h
no_retry-false g (x ∷ vs) retry v h = no_retry-false g vs (put retry x false) v (ground arith)

module _ (g : ExecutionGraph) (complete : IsComplete g) where
  abbrev begin : Retrying
  begin = record { dict = g.dict; retry = no_retry g g.nodes (empty false) }

  begin-IsSound : IsSound g begin
  begin-IsSound = record {
    marks = λ v m. absurd (ground (arith, no_retry-false g g.nodes (empty false) v refl));
    kept = λ v. inl refl;
  }

  -- The frontier of `setupRetry` is empty within as many rounds as there are nodes.
  pub swept_ends : (swept g).0 ≡ []
  unfolding swept
  swept_ends =
      let (vs, ordered, same) = topological g complete.linked complete.accepted in
      sweeps_end g complete.linked vs ordered same (length g.nodes) 0 (roots g g.nodes) begin
        (omega (arith, length-le_of_count vs g.nodes (λ v. omega (arith, same v))))
        (λ v m. ground (arith, count-roots g g.nodes v, same v))

  first_node : {u v : ℕ} → Trail g u v → 0 < count v g.nodes → 0 < count u g.nodes
  first_node start m = m
  first_node (onward {u} {v} e p) m = omega (arith, complete.linked.origin u v e)

  tainted_resets : (v : ℕ) → 0 < count v g.nodes → IsTainted g v → IsReset (swept g).1 v
  unfolding swept
  tainted_resets v m (u, f, p) =
      let (vs, ordered, same) = topological g complete.linked complete.accepted in
      let (r, mr, none_in, q) =
        from_root g complete vs ordered same (suc (rank u vs)) u (omega arith) (first_node p m) in
      failed_resets g complete.linked (length g.nodes) (roots g g.nodes) begin swept_ends
        (ground (arith, count-roots g g.nodes r)) f p q

  swept-IsSound : IsSound g (swept g).1
  unfolding swept
  swept-IsSound =
      sweeps-IsSound g complete.linked (length g.nodes) (roots g g.nodes) begin begin-IsSound

  -- A node that had failed or was canceled, or that depends on such a node however far, has the
  -- state of a node that never ran. Every other node is as it was.
  pub setup_retry_resets :
      (v : ℕ)
      → 0 < count v g.nodes
      → (IsTainted g v → (setup_retry g).dict.at v ≡ cleared (g.dict.at v))
        × (¬ IsTainted g v → (setup_retry g).dict.at v ≡ g.dict.at v)
  unfolding setup_retry clear_state
  setup_retry_resets v m = (
    λ t. elim (swept-IsSound.kept v) [
      | inl same ↦
          same
          ∙ sym (
              cleared_of_zero (g.dict.at v)
                (ap (λ (n : Node). n.node_data.state) (sym same) ∙ tainted_resets v m t))
      | inr (_, reset) ↦ reset
    ],
    λ clean. elim (swept-IsSound.kept v) [ inl same ↦ same | inr (t, _) ↦ absurd (clean t) ],
  )
