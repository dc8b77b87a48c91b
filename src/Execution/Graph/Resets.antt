-- ===== src/Execution/Graph/Resets.antt =====
-- What the rounds of `setupRetry` reach, and that they end.
use light_soar.Prelude.{
  ℕ, zero, suc, ◌+◌, ◌≤◌, ◌<◌, true, List, [], ◌∷◌, length, count, ◌≡◌, refl, ap, inl, inr, arith,
}
use light_soar.Execution.Graph.Defs.{ExecutionGraph}
use light_soar.Execution.Graph.Linked.{Edge, IsLinked, IsOrdered}
use light_soar.Execution.Graph.Construct.{Retrying, is_failed, sweep, sweeps}
use light_soar.Execution.Graph.Sweeps.{
  IsReset, Grows, Grows-refl, Grows-trans, IsHot, sweep-Grows, sweep-IsHandled, sweep_collects,
  sweep_only,
}
use light_soar.Execution.Graph.Ranks.{rank, rank-lt, rank-lt-length, Trail, start, onward}

module _ (g : ExecutionGraph) where
  pub sweeps-Grows : (fuel : ℕ) (us : List ℕ) (s : Retrying) → Grows s (sweeps g fuel us s).1
  unfolding sweeps
  sweeps-Grows zero us s = Grows-refl s
  sweeps-Grows (suc fuel) [] s = Grows-refl s
  sweeps-Grows (suc fuel) (u ∷ us) s =
      let (next, s') = sweep g (u ∷ us) [] s in
      Grows-trans (sweep-Grows g (u ∷ us) [] s) (sweeps-Grows fuel next s')

  module _ (linked : IsLinked g) where
    successor : (u v : ℕ) → Edge g u v → 0 < count v (g.from.at u)
    successor u v e = omega (arith, linked.converse u v)

    -- All that a marked or failed node of the frontier leads to is reset.
    pub hot_resets :
        {x w : ℕ} (fuel : ℕ) (us : List ℕ) (s : Retrying)
        → (sweeps g fuel us s).0 ≡ []
        → 0 < count x us
        → IsHot g s x
        → Trail g x w
        → IsReset (sweeps g fuel us s).1 w
    unfolding sweeps
    hot_resets {x} zero us s done m h p = absurd (omega (arith, ap (count x) done))
    hot_resets (suc fuel) [] s done m h p = absurd (omega arith)
    hot_resets (suc fuel) (u ∷ us) s done m h (start {u = x}) =
        let (next, s') = sweep g (u ∷ us) [] s in
        (sweeps-Grows fuel next s').reset x (sweep-IsHandled g (u ∷ us) [] s x m h).0
    hot_resets (suc fuel) (u ∷ us) s done m h (onward {u = x} {v} e p) =
        let (next, s') = sweep g (u ∷ us) [] s in
        let f = successor x v e in
        hot_resets fuel next s' done (sweep_collects g (u ∷ us) [] s x v m f)
          (inl ((sweep-IsHandled g (u ∷ us) [] s x m h).1 v f)) p

    -- All that a failed node leads to is reset, if the frontier leads to that node.
    pub failed_resets :
        {x u w : ℕ} (fuel : ℕ) (us : List ℕ) (s : Retrying)
        → (sweeps g fuel us s).0 ≡ []
        → 0 < count x us
        → is_failed g u ≡ true
        → Trail g u w
        → Trail g x u
        → IsReset (sweeps g fuel us s).1 w
    unfolding sweeps
    failed_resets {x} zero us s done m h p q = absurd (omega (arith, ap (count x) done))
    failed_resets (suc fuel) [] s done m h p q = absurd (omega arith)
    failed_resets (suc fuel) (y ∷ us) s done m h p start =
        hot_resets (suc fuel) (y ∷ us) s done m (inr h) p
    failed_resets (suc fuel) (y ∷ us) s done m h p (onward {u = x} {v} e q) =
        let (next, s') = sweep g (y ∷ us) [] s in
        failed_resets fuel next s' done (sweep_collects g (y ∷ us) [] s x v m (successor x v e)) h p
          q

    module _ (vs : List ℕ) (ordered : IsOrdered g vs)
        (same : (v : ℕ) → count v vs ≡ count v g.nodes) where
      -- Every round lifts the frontier, so the rounds end within the number of the nodes.
      pub sweeps_end :
          (fuel k : ℕ) (us : List ℕ) (s : Retrying)
          → length vs ≤ k + fuel
          → ((x : ℕ) → 0 < count x us → (k ≤ rank x vs) × (0 < count x vs))
          → (sweeps g fuel us s).0 ≡ []
      unfolding sweeps
      sweeps_end zero k [] s n h = refl
      sweeps_end zero k (u ∷ us) s n h =
          let (low, m) = h u (ground arith) in absurd (omega (arith, rank-lt-length g u vs m))
      sweeps_end (suc fuel) k [] s n h = refl
      sweeps_end (suc fuel) k (u ∷ us) s n h =
          let (next, s') = sweep g (u ∷ us) [] s in
          sweeps_end fuel (suc k) next s' (omega arith) λ v m.
            elim (sweep_only g (u ∷ us) [] s v m) [
              | inl none_before ↦ absurd (omega arith)
              | inr (x, mx, f) ↦
                  let e : Edge g x v = omega (arith, linked.converse x v) in
                  let mv : 0 < count v vs = omega (arith, linked.target x v e, same v) in
                  let (low, _) = h x mx in (omega (arith, rank-lt g x v vs ordered e mv), mv)
            ]
