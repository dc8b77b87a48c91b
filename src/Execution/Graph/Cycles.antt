-- ===== src/Execution/Graph/Cycles.antt =====
-- `hasCycle` answers exactly whether a node depends on itself through one edge or more.
use native.Mathlib.Decide.{ℕ_discrete, dec_lt}
use light_soar.Prelude.{
  ℕ, zero, suc, ◌+◌, ◌≤◌, ◌<◌, is_positive_int, true, false, List, [], ◌∷◌, length, count, ◌≡◌,
  refl, ◌↔◌, ◌⊎◌, inl, inr, arith, length-le_of_count, any_of_count, any_found, Bool-cases,
}
use light_soar.Execution.Graph.Defs.{ExecutionGraph, drained, has_cycle}
use light_soar.Execution.Graph.Linked.{
  IsLinked, IsOrdered, Edge, Walk, edge, extend, Edge-IsOrdered,
}
use light_soar.Execution.Graph.Kahn.{outstanding}
use light_soar.Execution.Graph.Rounds.{Drained, drained-Drained}

unfinished_dep :
    (finished us : List ℕ)
    → 0 < outstanding finished us
    → (u : ℕ) × (0 < count u us) × (count u finished ≡ 0)
unfinished_dep finished [] h = absurd (omega arith)
unfinished_dep finished (x ∷ us) h = elim (ℕ_discrete (count x finished) 0) [
  | yes new ↦ (x, ground arith, new)
  | no old ↦ let (u, m, new) = unfinished_dep finished us (ground arith) in (u, ground arith, new)
]

module _ (g : ExecutionGraph) where
  pub prepend : {u v w : ℕ} → Edge g u v → Walk g v w → Walk g u w
  prepend e (edge f) = extend (edge e) f
  prepend e (extend p f) = extend (prepend e p) f

  pub Walk-IsOrdered :
      {u v : ℕ} (vs : List ℕ) → IsOrdered g vs → Walk g u v → 0 < count v vs → 0 < count u vs
  Walk-IsOrdered vs h (edge {u} {v} e) m = Edge-IsOrdered g vs u v h e m
  Walk-IsOrdered vs h (extend {v} {w} p e) m = Walk-IsOrdered vs h p (Edge-IsOrdered g vs v w h e m)

  last-Edge : {u w : ℕ} → Walk g u w → (v : ℕ) × Edge g v w × ((v ≡ u) ⊎ Walk g u v)
  last-Edge (edge {u} e) = (u, e, inl refl)
  last-Edge (extend {v} p e) = (v, e, inr p)

  no_cycle : {w : ℕ} (vs : List ℕ) → IsOrdered g vs → 0 < count w vs → ¬ Walk g w w
  no_cycle [] h m p = absurd (omega arith)
  no_cycle {w} (x ∷ vs) h m p = elim (ℕ_discrete x w) [
    | yes same ↦ no_cycle vs h.1 (back same (last-Edge p)) p
    | no other ↦ no_cycle vs h.1 (ground arith) p
  ]
    where
      back : x ≡ w → (v : ℕ) × Edge g v w × ((v ≡ w) ⊎ Walk g w v) → 0 < count w vs
      back same (v, e, inl e') = rw (← e') (h.0 v (rw same e))
      back same (v, e, inr q) = Walk-IsOrdered vs h.1 q (h.0 v (rw same e))

  module _ (linked : IsLinked g) where
    d : Drained g linked (drained g)
    d = drained-Drained g linked

    abbrev left : ℕ → ℕ
    left v = outstanding d.finished (g.to.at v)

    -- A node that is not finished depends on another such node.
    stuck_dep : (v : ℕ) → 0 < left v → (u : ℕ) × Edge g u v × (0 < left u) × (count u g.nodes ≡ 1)
    stuck_dep v h =
        let (u, e, new) = unfinished_dep d.finished (g.to.at v) h in
        (u, e, ground (arith, d.inv.placed u, linked.origin u v e), linked.origin u v e)

    find_cycle :
        (fuel : ℕ) (v : ℕ) (vs : List ℕ)
        → length g.nodes ≤ fuel + length vs
        → 0 < left v
        → ((x : ℕ) → count x (v ∷ vs) ≤ count x g.nodes)
        → ((x : ℕ) → 0 < count x vs → Walk g v x)
        → (w : ℕ) × Walk g w w
    find_cycle zero v vs n h nodes walks =
        absurd (omega (arith, length-le_of_count (v ∷ vs) g.nodes nodes))
    find_cycle (suc fuel) v vs n h nodes walks =
        let (u, e, hu, node) = stuck_dep v h in
        let walk : (x : ℕ) → 0 < count x (v ∷ vs) → Walk g u x = λ x m. elim (ℕ_discrete v x) [
          | yes same ↦ edge (rw (← same) e)
          | no other ↦ prepend e (walks x (ground arith))
        ] in
        elim (dec_lt 0 (count u (v ∷ vs))) [
          | yes seen ↦ (u, walk u seen)
          | no new ↦ find_cycle fuel u (v ∷ vs) (omega arith) hu (λ x. ground (arith, nodes x)) walk
        ]

    left_positive : has_cycle g ≡ true → (v : ℕ) × (0 < left v)
    unfolding has_cycle
    left_positive h =
        let (v, p) = any_found (λ v. is_positive_int ((drained g).1.at v)) (drained g).1.keys h in
        (v, ground (arith, d.inv.at v))

    left_zero : has_cycle g ≡ false → (v : ℕ) → left v ≡ 0
    unfolding has_cycle
    left_zero h v = ground (
      arith,
      any_of_count (λ v. is_positive_int ((drained g).1.at v)) (drained g).1.keys v h,
      d.inv.at v,
      d.inv.keys v,
    )

    last_node : {w : ℕ} → Walk g w w → count w g.nodes ≡ 1
    last_node {w} p = let (v, e, _) = last-Edge p in linked.target v w e

    pub cycle_found : has_cycle g ≡ true → (w : ℕ) × Walk g w w
    cycle_found h =
        let (v, p) = left_positive h in
        let (u, e, hu, node) = stuck_dep v p in
        find_cycle (length g.nodes) u [] (omega arith) hu (λ x. ground arith)
          (λ x m. absurd (omega arith))

    -- The dependencies of every node of an accepted graph can be put in order.
    pub topological :
        has_cycle g ≡ false
        → (vs : List ℕ) × IsOrdered g vs × ((v : ℕ) → count v vs ≡ count v g.nodes)
    topological h = (d.finished, d.inv.ordered, λ v. ground (arith, d.inv.placed v, left_zero h v))

    pub no_cycle_found : has_cycle g ≡ false → (w : ℕ) → ¬ Walk g w w
    no_cycle_found h w p =
        let (vs, ordered, same) = topological h in
        no_cycle vs ordered (ground (arith, same w, last_node p)) p

    pub has_cycle_correct : (has_cycle g ≡ true) ↔ ((w : ℕ) × Walk g w w)
    has_cycle_correct = (
      cycle_found,
      λ (w, p). elim (Bool-cases (has_cycle g)) [
        | inl found ↦ found
        | inr missed ↦ absurd (no_cycle_found missed w p)
      ],
    )
