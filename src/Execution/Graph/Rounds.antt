-- ===== src/Execution/Graph/Rounds.antt =====
-- The loop over the queue of `hasCycle`: its invariant, and that the fuel is enough.
use light_soar.Prelude.{
  ℕ, zero, suc, ◌+◌, ◌≤◌, ◌==◌, ℤ, pos, is_zero_int, List, [], ◌∷◌, ◌++◌, if◌then◌else◌, length,
  count, GoMap, put, IsSupported, put-IsSupported, ◌≡◌, refl, ◌∙◌, arith, ap, count-append,
  length-le_of_count, empty, length-append,
}
use native.Mathlib.Decide.{ℕ_discrete}
use light_soar.Execution.Graph.Defs.{ExecutionGraph, in_degrees, sources, release, drain, drained}
use light_soar.Execution.Graph.Linked.{IsLinked, IsOrdered}
use light_soar.Execution.Graph.Kahn.{
  outstanding, outstanding-nil, outstanding-cons, finished_of_outstanding, release-Released,
  is_zero_int-pos,
}

module _ (g : ExecutionGraph) where
  pub record Inv (finished q : List ℕ) (degrees : GoMap ℤ) : Type 0 where
    pub at : (v : ℕ) → degrees.at v ≡ pos (outstanding finished (g.to.at v))
    pub placed :
        (v : ℕ)
        → count v q + count v finished
          ≡ (if outstanding finished (g.to.at v) == 0 then count v g.nodes else 0)
    pub keys : IsSupported (pos 0) degrees
    pub ordered : IsOrdered g finished

  module _ (linked : IsLinked g) where
    record Popped (f : ℕ) (finished q : List ℕ) : Type 0 where
      fresh : count f finished ≡ 0
      ready : outstanding finished (g.to.at f) ≡ 0
      split :
          (v : ℕ)
          → outstanding (f ∷ finished) (g.to.at v) + count f (g.to.at v)
            ≡ outstanding finished (g.to.at v)

    pop :
        (f : ℕ) (finished q : List ℕ) (degrees : GoMap ℤ)
        → Inv finished (f ∷ q) degrees
        → Popped f finished q
    pop f finished q degrees h =
        let fresh : count f finished ≡ 0 = ground (arith, h.placed f, linked.distinct f) in
        record {
          fresh = fresh;
          ready = ground (arith, h.placed f);
          split = λ v. outstanding-cons f finished (g.to.at v) fresh;
        }

    round-Inv :
        (f : ℕ) (finished q : List ℕ) (degrees : GoMap ℤ)
        → Inv finished (f ∷ q) degrees
        → let (q', degrees') = release (g.from.at f) q degrees in Inv (f ∷ finished) q' degrees'
    round-Inv f finished q degrees h =
        let p = pop f finished q degrees h in
        let r =
          release-Released (g.from.at f) q degrees (λ v. outstanding finished (g.to.at v)) h.at
            (λ v. omega (arith, linked.converse f v, p.split v)) h.keys in
        record {
          at = λ v. r.at v ∙ ap pos (omega (arith, linked.converse f v, p.split v));
          placed = λ v.
              ground
                (arith, r.queue v, h.placed v, p.split v, linked.converse f v, linked.target f v);
          keys = r.keys;
          ordered = (λ u e. finished_of_outstanding finished (g.to.at f) u p.ready e, h.ordered);
        }

    length-le-nodes :
        (finished q : List ℕ) (degrees : GoMap ℤ)
        → Inv finished q degrees
        → length q + length finished ≤ length g.nodes
    length-le-nodes finished q degrees h = omega (
      arith,
      length-append q finished,
      length-le_of_count (q ++ finished) g.nodes
          (λ v. ground (arith, h.placed v, count-append v q finished)),
    )

    pub record Drained (r : List ℕ × GoMap ℤ) : Type 0 where
      pub finished : List ℕ
      pub empties : r.0 ≡ []
      pub inv : Inv finished [] r.1

    drain-Drained :
        (fuel : ℕ) (finished q : List ℕ) (degrees : GoMap ℤ)
        → length g.nodes ≤ fuel + length finished
        → Inv finished q degrees
        → Drained (drain g fuel q degrees)
    unfolding drain
    drain-Drained zero finished [] degrees n h = record {
      finished = finished;
      empties = refl;
      inv = h;
    }
    drain-Drained zero finished (f ∷ q) degrees n h =
        absurd (omega (arith, length-le-nodes finished (f ∷ q) degrees h))
    drain-Drained (suc fuel) finished [] degrees n h = record {
      finished = finished;
      empties = refl;
      inv = h;
    }
    drain-Drained (suc fuel) finished (f ∷ q) degrees n h =
        let (q', degrees') = release (g.from.at f) q degrees in
        drain-Drained fuel (f ∷ finished) q' degrees' (omega arith)
          (round-Inv f finished q degrees h)

in_degrees_at :
    (keys : List ℕ) (to : GoMap (List ℕ)) (degrees : GoMap ℤ) (v : ℕ)
    → (in_degrees keys to degrees).at v
      ≡ (if count v keys == 0 then degrees.at v else pos (length (to.at v)))
unfolding in_degrees
in_degrees_at [] to degrees v = refl
in_degrees_at (k ∷ ks) to degrees v =
    ground (arith, in_degrees_at ks to (put degrees k (pos (length (to.at k)))) v)

in_degrees-IsSupported :
    (keys : List ℕ) (to : GoMap (List ℕ)) (degrees : GoMap ℤ)
    → IsSupported (pos 0) degrees
    → IsSupported (pos 0) (in_degrees keys to degrees)
unfolding in_degrees
in_degrees-IsSupported [] to degrees h = h
in_degrees-IsSupported (k ∷ ks) to degrees h =
    in_degrees-IsSupported ks to _ (put-IsSupported (pos 0) degrees k (pos (length (to.at k))) h)

count-sources :
    (vs : List ℕ) (degrees : GoMap ℤ) (v : ℕ)
    → count v (sources vs degrees) ≡ (if is_zero_int (degrees.at v) then count v vs else 0)
unfolding sources
count-sources [] degrees v = ground arith
count-sources (x ∷ vs) degrees v = elim (ℕ_discrete x v) [
  | yes same ↦ rw same (ground (arith, count-sources vs degrees v))
  | no other ↦ ground (arith, count-sources vs degrees v)
]

module _ (g : ExecutionGraph) (linked : IsLinked g) where
  start : GoMap ℤ
  start = in_degrees g.to.keys g.to (empty (pos 0))

  start_at : (v : ℕ) → start.at v ≡ pos (outstanding [] (g.to.at v))
  unfolding start
  start_at v = ground (
    arith,
    in_degrees_at g.to.keys g.to (empty (pos 0)) v,
    outstanding-nil (g.to.at v),
    linked.supported v,
  )

  start-Inv : Inv g [] (sources g.nodes start) start
  unfolding start
  start-Inv = record {
    at = start_at;
    placed = λ v.
        ground (arith, count-sources g.nodes start v, is_zero_int-pos (start.at v) _ (start_at v));
    keys = in_degrees-IsSupported g.to.keys g.to (empty (pos 0)) (λ k _. refl);
    ordered = tt;
  }

  pub drained-Drained : Drained g linked (drained g)
  unfolding drained start
  drained-Drained =
      drain-Drained g linked (length g.nodes) [] (sources g.nodes start) start (omega arith)
        start-Inv
