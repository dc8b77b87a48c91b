-- ===== src/Execution/Schedule/Ready.antt =====
-- What `isReady` does to the nodes that it looks at, and what its answer says of them.
use light_soar.Prelude.{
  ℕ, Bool, true, false, Option, some, List, [], ◌∷◌, all, count, ◌≤◌, ◌<◌, if_ind, ◌&&◌, ◌≡◌, ◌≢◌,
  ◌&&◌, refl, ap, sym, ◌∙◌, put_ne, arith,
}
use light_soar.Execution.Status.{NodeStatus, Err, upstream_failed, upstream_skipped}
use light_soar.Execution.Data.{set_status, set_error}
use light_soar.Execution.Graph.Defs.{ExecutionGraph}
use light_soar.Execution.Node.Defs.{LogCheck, continue_by_status, should_continue}
use light_soar.Execution.Schedule.Defs.{
  Nodes, status_at, set_status_at, block, ask, check_status, check_deps, is_ready,
}
use light_soar.Execution.Schedule.Statuses.{
  Back, Back-refl, Back-trans, put_same-Back, put_other-Back, should_continue-status_of,
}

-- A property of statuses that neither a canceled nor a skipped node has.
module _ (p : NodeStatus → Bool) (not_cancel : p NodeStatus.cancel ≡ false)
    (not_skipped : p NodeStatus.skipped ≡ false) (log : LogCheck) (i : ℕ) where
  asked : (dep : ℕ) (d : Nodes) → Back p d (ask log dep d).1
  unfolding ask
  asked dep d = put_same-Back p d dep _ (should_continue-status_of log (d.at dep))

  blocked : (s : NodeStatus) (e : Option Err) (d : Nodes) → p s ≡ false → Back p d (block s e i d).1
  unfolding block set_status set_error
  blocked s e d h =
      let marked = set_status_at s i d in
      Back-trans p (put_other-Back p d i _ h) (put_same-Back p marked i _ refl)

  pub check_status-Back :
      (s : NodeStatus) (dep : ℕ) (ready : Bool) (d : Nodes)
      → Back p d (check_status log s i dep ready d).1
  unfolding check_status set_status
  check_status-Back NodeStatus.success dep ready d = Back-refl p d
  check_status-Back NodeStatus.error dep ready d =
      let d' = (ask log dep d).1 in
      if_ind (λ (r : Bool × Nodes). Back p d r.1) (ask log dep d).0 (asked dep d)
        (Back-trans p (asked dep d)
          (blocked NodeStatus.cancel (some upstream_failed) d' not_cancel))
  check_status-Back NodeStatus.skipped dep ready d =
      let d' = (ask log dep d).1 in
      if_ind (λ (r : Bool × Nodes). Back p d r.1) (ask log dep d).0 (asked dep d)
        (Back-trans p (asked dep d)
          (blocked NodeStatus.skipped (some upstream_skipped) d' not_skipped))
  check_status-Back NodeStatus.cancel dep ready d = put_other-Back p d i _ not_cancel
  check_status-Back NodeStatus.none dep ready d = Back-refl p d
  check_status-Back NodeStatus.running dep ready d = Back-refl p d

  pub check_deps-Back :
      (deps : List ℕ) (ready : Bool) (d : Nodes) → Back p d (check_deps log i deps ready d).1
  unfolding check_deps
  check_deps-Back [] ready d = Back-refl p d
  check_deps-Back (dep ∷ deps) ready d =
      let (ready', d') = check_status log (status_at d dep) i dep ready d in
      Back-trans p (check_status-Back (status_at d dep) dep ready d)
        (check_deps-Back deps ready' d')

  pub is_ready-Back : (g : ExecutionGraph) (d : Nodes) → Back p d (is_ready log g i d).1
  unfolding is_ready
  is_ready-Back g d = check_deps-Back (g.to.at i) true d

module _ (log : LogCheck) (i : ℕ) where
  -- The nodes but `i` and `dep` are as before.
  unfoldable Apart : ℕ → Nodes → Nodes → Type 0
  Apart dep d d' = (j : ℕ) → j ≢ i → j ≢ dep → d'.at j ≡ d.at j

  asked-Apart : (dep : ℕ) (d : Nodes) → Apart dep d (ask log dep d).1
  unfolding Apart ask
  asked-Apart dep d j other_i other_dep = put_ne d dep j _ (λ h. other_dep (sym h))

  blocked-Apart :
      (s : NodeStatus) (e : Option Err) (dep : ℕ) (d : Nodes) → Apart dep d (block s e i d).1
  unfolding Apart block set_status set_error
  blocked-Apart s e dep d j other_i other_dep =
      put_ne (set_status_at s i d) i j _ (λ h. other_i (sym h))
      ∙ put_ne d i j _ (λ h. other_i (sym h))

  check_status-Apart :
      (s : NodeStatus) (dep : ℕ) (ready : Bool) (d : Nodes)
      → Apart dep d (check_status log s i dep ready d).1
  unfolding Apart check_status set_status
  check_status-Apart NodeStatus.success dep ready d = λ j a b. refl
  check_status-Apart NodeStatus.error dep ready d =
      if_ind (λ (r : Bool × Nodes). Apart dep d r.1) (ask log dep d).0 (asked-Apart dep d)
        (λ j a b.
          blocked-Apart NodeStatus.cancel (some upstream_failed) dep (ask log dep d).1 j a b
          ∙ asked-Apart dep d j a b)
  check_status-Apart NodeStatus.skipped dep ready d =
      if_ind (λ (r : Bool × Nodes). Apart dep d r.1) (ask log dep d).0 (asked-Apart dep d)
        (λ j a b.
          blocked-Apart NodeStatus.skipped (some upstream_skipped) dep (ask log dep d).1 j a b
          ∙ asked-Apart dep d j a b)
  check_status-Apart NodeStatus.cancel dep ready d = λ j a b. put_ne d i j _ (λ h. a (sym h))
  check_status-Apart NodeStatus.none dep ready d = λ j a b. refl
  check_status-Apart NodeStatus.running dep ready d = λ j a b. refl

  -- `shouldContinue` of a dependency.
  abbrev pub lets_on : Nodes → ℕ → Bool
  lets_on d dep = (should_continue log (d.at dep)).0

  -- The answer that a case of the loop's body leaves.
  check_status_answer :
      (s : NodeStatus) (dep : ℕ) (ready : Bool) (d : Nodes)
      → status_at d dep ≡ s
      → (check_status log s i dep ready d).0 ≡ (ready && lets_on d dep)
  unfolding check_status ask block should_continue continue_by_status
  check_status_answer NodeStatus.success dep ready d e = ground (arith, e)
  check_status_answer NodeStatus.error dep ready d e = ground (arith, e)
  check_status_answer NodeStatus.skipped dep ready d e = ground (arith, e)
  check_status_answer NodeStatus.cancel dep ready d e = ground (arith, e)
  check_status_answer NodeStatus.none dep ready d e = ground (arith, e)
  check_status_answer NodeStatus.running dep ready d e = ground (arith, e)

  lets_on-same :
      (deps : List ℕ) (d d' : Nodes)
      → ((j : ℕ) → 0 < count j deps → d'.at j ≡ d.at j)
      → all (lets_on d') deps ≡ all (lets_on d) deps
  lets_on-same [] d d' h = refl
  lets_on-same (dep ∷ deps) d d' h =
      let here : lets_on d' dep ≡ lets_on d dep =
        ap (λ n. (should_continue log n).0) (h dep (ground arith)) in
      let rest = lets_on-same deps d d' (λ j m. h j (ground arith)) in ground (arith, here, rest)

  check_deps_answer :
      (deps : List ℕ) (ready : Bool) (d : Nodes)
      → ((j : ℕ) → count j deps ≤ 1)
      → count i deps ≡ 0
      → (check_deps log i deps ready d).0 ≡ (ready && all (lets_on d) deps)
  unfolding check_deps Apart
  check_deps_answer [] ready d once apart = ground arith
  check_deps_answer (dep ∷ deps) ready d once apart =
      let (ready', d') = check_status log (status_at d dep) i dep ready d in
      let first : ready' ≡ (ready && lets_on d dep) =
        check_status_answer (status_at d dep) dep ready d refl in
      let others = λ (j : ℕ) (m : 0 < count j deps).
        check_status-Apart (status_at d dep) dep ready d j
          (λ h. let same = ap (λ k. count k deps) h in ground (arith, same))
          (λ h. let same = ap (λ k. count k deps) h in ground (arith, once dep, same)) in
      let rest =
        check_deps_answer deps ready' d' (λ j. ground (arith, once j)) (ground arith)
        ∙ ap (λ b. ready' && b) (lets_on-same deps d d' others) in
      ground (arith, first, rest)

module _ (log : LogCheck) (g : ExecutionGraph) (i : ℕ) (once : (j : ℕ) → count j (g.to.at i) ≤ 1)
    (apart : count i (g.to.at i) ≡ 0) where
  -- For a node that does not depend on itself and depends on no node twice, `isReady` answers true
  -- exactly when `shouldContinue` does for every node it depends on, each as it is before the call.
  pub is_ready_answer :
      (d : Nodes)
      → (is_ready log g i d).0 ≡ all (λ dep. (should_continue log (d.at dep)).0) (g.to.at i)
  unfolding is_ready
  is_ready_answer d = check_deps_answer log i (g.to.at i) true d once apart
