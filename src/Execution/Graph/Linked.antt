-- ===== src/Execution/Graph/Linked.antt =====
-- What the edges of a graph are, and what `setup` makes sure of them.
use light_soar.Prelude.{ℕ, ◌≤◌, ◌<◌, List, [], ◌∷◌, count, IsSupported, ◌≡◌, arith}
use native.Mathlib.Decide.{ℕ_discrete}
use light_soar.Execution.Graph.Defs.{ExecutionGraph}

module _ (g : ExecutionGraph) where
  -- Node `v` depends on node `u`.
  abbrev pub Edge : ℕ → ℕ → Type 0
  Edge u v = 0 < count u (g.to.at v)

  -- The walks of at least one edge.
  pub data Walk : ℕ → ℕ → Type 0 where
    edge : {u v : ℕ} → Edge u v → Walk u v
    extend : {u v w : ℕ} → Walk u v → Edge v w → Walk u w

  pub record IsLinked : Type 0 where
    pub distinct : (v : ℕ) → count v g.nodes ≤ 1
    pub converse : (u v : ℕ) → count u (g.to.at v) ≡ count v (g.from.at u)
    pub target : (u v : ℕ) → Edge u v → count v g.nodes ≡ 1
    pub origin : (u v : ℕ) → Edge u v → count u g.nodes ≡ 1
    pub supported : IsSupported [] g.to

  -- A list in which the dependencies of each node stand behind it.
  abbrev pub IsOrdered : List ℕ → Type 0
  IsOrdered [] = Unit
  IsOrdered (v ∷ vs) = ((u : ℕ) → Edge u v → 0 < count u vs) × IsOrdered vs

  pub Edge-IsOrdered :
      (vs : List ℕ) (u v : ℕ) → IsOrdered vs → Edge u v → 0 < count v vs → 0 < count u vs
  Edge-IsOrdered [] u v h e m = absurd (omega arith)
  Edge-IsOrdered (x ∷ vs) u v h e m = elim (ℕ_discrete x v) [
    | yes same ↦ ground (arith, h.0 u (rw same e))
    | no other ↦ ground (arith, Edge-IsOrdered vs u v h.1 e (ground arith))
  ]
