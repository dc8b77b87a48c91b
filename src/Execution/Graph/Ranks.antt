-- ===== src/Execution/Graph/Ranks.antt =====
-- Positions in a topological order, and trails from the nodes with no dependency.
use native.Mathlib.Decide.{ℕ_discrete}
use light_soar.Prelude.{
  ℕ, zero, suc, ◌<◌, ◌==◌, false, List, [], ◌∷◌, map, if◌then◌else◌, length, count, ◌≡◌, sym, subst,
  ap, inl, inr, arith, List-cases,
}
use light_soar.Execution.Graph.Defs.{ExecutionGraph, name, depends, has_cycle}
use light_soar.Execution.Graph.Linked.{Edge, IsLinked, IsOrdered, Edge-IsOrdered}
use light_soar.Execution.Graph.Setup.{IsSetUp}

-- A graph that can be run: every node has an edge for each of its dependencies, in order, and
-- `hasCycle` accepts it.
pub record IsComplete (g : ExecutionGraph) : Type 0 where
  pub linked : IsLinked g
  pub into : (v : ℕ) → 0 < count v g.nodes → map (name g) (g.to.at v) ≡ depends g v
  pub accepted : has_cycle g ≡ false

pub IsSetUp-IsComplete : {g g' : ExecutionGraph} → IsSetUp g g' → IsComplete g'
IsSetUp-IsComplete {g} {g'} h = record {
  linked = h.linked;
  into = λ v m.
      subst
        (λ d.
          map (λ i. (d.at i).node_data.step.name) (g'.to.at v) ≡ (d.at v).node_data.step.depends)
        (sym h.same_dict) (h.into v (omega (arith, ap (count v) h.same_nodes)));
  accepted = h.accepted;
}

-- How many entries stand behind the last occurrence of `v`.
pub rank : ℕ → List ℕ → ℕ
rank v [] = 0
rank v (x ∷ vs) = if count v vs == 0 then length vs else rank v vs

module _ (g : ExecutionGraph) where
  -- The trails of no edge or more.
  pub data Trail : ℕ → ℕ → Type 0 where
    start : {u : ℕ} → Trail u u
    onward : {u v w : ℕ} → Edge g u v → Trail v w → Trail u w

  pub Trail-snoc : {u v w : ℕ} → Trail u v → Edge g v w → Trail u w
  Trail-snoc start e = onward e start
  Trail-snoc (onward d p) e = onward d (Trail-snoc p e)

  pub rank-lt-length : (v : ℕ) (vs : List ℕ) → 0 < count v vs → rank v vs < length vs
  unfolding rank
  rank-lt-length v [] m = absurd (omega arith)
  rank-lt-length v (x ∷ vs) m = ground (arith, rank-lt-length v vs)

  pub rank-lt :
      (u v : ℕ) (vs : List ℕ) → IsOrdered g vs → Edge g u v → 0 < count v vs → rank u vs < rank v vs
  unfolding rank
  rank-lt u v [] h e m = absurd (omega arith)
  rank-lt u v (x ∷ vs) h e m = elim (ℕ_discrete (count v vs) 0) [
    | yes last ↦
        let same : x ≡ v = ground (arith, m) in
        let before : 0 < count u vs = h.0 u (rw same e) in
        ground (arith, rank-lt-length u vs before)
    | no later ↦
        let m' : 0 < count v vs = omega arith in
        ground (arith, rank-lt u v vs h.1 e m', Edge-IsOrdered g vs u v h.1 e m')
  ]

  -- Every node of an order can be reached from a node with no dependency.
  pub from_root :
      (complete : IsComplete g) (vs : List ℕ) (ordered : IsOrdered g vs)
      → ((v : ℕ) → count v vs ≡ count v g.nodes)
      → (n v : ℕ) → rank v vs < n
      → 0 < count v g.nodes
      → (r : ℕ) × (0 < count r g.nodes) × (depends g r ≡ []) × Trail r v
  from_root complete vs ordered same zero v h m = absurd (omega arith)
  from_root complete vs ordered same (suc n) v h m = elim (List-cases (g.to.at v)) [
    | inl none_in ↦ (v, m, ground (arith, complete.into v m), start)
    | inr (u, rest, e) ↦
        let d : Edge g u v = ground (arith, e) in
        let lower = rank-lt u v vs ordered d (omega (arith, same v)) in
        let (r, mr, no_deps, p) =
          from_root complete vs ordered same n u (omega arith)
            (omega (arith, complete.linked.origin u v d)) in
        (r, mr, no_deps, Trail-snoc p d)
  ]
