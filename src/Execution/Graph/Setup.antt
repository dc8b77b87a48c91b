-- ===== src/Execution/Graph/Setup.antt =====
-- What `setup` does to a graph whose nodes have just been added, on success and on each error.
use mathlib.Core.List.{Memᴰ}
use light_soar.Prelude.{
  ℕ, ◌≤◌, ◌<◌, true, false, List, [], ◌∷◌, map, Text, count, GoMap, ◌≡◌, ◌≢◌, refl, sym, subst, ◌∙◌,
  ap, ◌⊎◌, inl, inr, arith,
}
use light_soar.Execution.Data.{Node}
use light_soar.Execution.Status.{Err, cycle_detected, step_not_found}
use light_soar.Execution.Graph.Defs.{
  ExecutionGraph, name, depends, Result, ok, err, ◌>>=◌, MapOrder, add_edge, find_step, link,
  link_all, has_cycle, setup,
}
use light_soar.Execution.Graph.Linked.{IsLinked, Walk}
use light_soar.Execution.Graph.Cycles.{no_cycle_found, cycle_found}
use light_soar.Execution.Graph.Links.{
  IsMapOrder, IsFresh, ok-injective, >>=-eq-ok, add_edge-IsLinked, find_step-err, found_node,
  Linked, link-Linked, LinkedAll, link_all-LinkedAll,
}

>>=-eq-err :
    {A B : Type 0} (m : Result A) (f : A → Result B) {e : Err}
    → (m >>= f) ≡ err e
    → (m ≡ err e) ⊎ ((a : A) × (m ≡ ok a) × (f a ≡ err e))
>>=-eq-err (ok a) f h = inr (a, refl, h)
>>=-eq-err (err x) f h = inl (ground arith)

-- Some dependency of `deps` is the name of no node, and `e` says so.
pub record Dangling (g : ExecutionGraph) (deps : List Text) (e : Err) : Type 0 where
  pub dep : Text
  pub listed : Memᴰ dep deps
  pub named : e ≡ step_not_found dep
  pub absent : (i : ℕ) → 0 < count i g.nodes → name g i ≢ dep

Dangling-tail :
    {g : ExecutionGraph} {deps : List Text} {e : Err} (d : Text)
    → Dangling g deps e
    → Dangling g (d ∷ deps) e
Dangling-tail d h = record {
  dep = h.dep;
  listed = Memᴰ.tail h.listed;
  named = h.named;
  absent = h.absent;
}

-- The node whose dependency dangles.
pub record DanglingNode (g : ExecutionGraph) (vs : List ℕ) (e : Err) : Type 0 where
  pub node : ℕ
  pub among : 0 < count node vs
  pub dangling : Dangling g (depends g node) e

module _ (order : MapOrder) (fair : IsMapOrder order) where
  link-err :
      (v : ℕ) (deps : List Text) (g : ExecutionGraph) (e : Err)
      → IsLinked g
      → ((i : ℕ) → count i g.dict.keys ≡ count i g.nodes)
      → count v g.nodes ≡ 1
      → link order v deps g ≡ err e
      → Dangling g deps e
  unfolding link
  link-err v [] g e l keys hv h = cc
  link-err v (dep ∷ deps) g e l keys hv h =
      elim (>>=-eq-err (find_step g dep (order v (dep ∷ deps) g.dict.keys)) _ h) [
        | inl missing ↦
            let (named, absent) = find_step-err g dep _ e missing in
            record {
              dep = dep;
              listed = Memᴰ.head refl;
              named = named;
              absent = λ i m. absent i (omega (arith, fair v (dep ∷ deps) g.dict.keys i, keys i));
            }
        | inr (u, found, rest) ↦
            let (node, named) = found_node order fair g v dep deps u l keys found in
            let r =
              link-err v deps (add_edge g u v) e (add_edge-IsLinked g u v l node hv) keys hv rest in
            Dangling-tail dep
              (record { dep = r.dep; listed = r.listed; named = r.named; absent = r.absent })
      ]

  link_all-err :
      (vs : List ℕ) (g : ExecutionGraph) (e : Err)
      → IsLinked g
      → ((i : ℕ) → count i g.dict.keys ≡ count i g.nodes)
      → ((i : ℕ) → count i vs ≤ count i g.nodes)
      → link_all order vs g ≡ err e
      → DanglingNode g vs e
  unfolding link_all
  link_all-err [] g e l keys hv h = cc
  link_all-err (x ∷ vs) g e l keys hv h =
      let hx : count x g.nodes ≡ 1 = ground (arith, hv x, l.distinct x) in
      elim (>>=-eq-err (link order x (depends g x) g) _ h) [
        | inl first ↦ record {
          node = x;
          among = ground arith;
          dangling = link-err x (depends g x) g e l keys hx first;
        }
        | inr (g₁, first, rest) ↦
            let a = link-Linked order fair x (depends g x) g g₁ l keys hx first in
            let nodes_same = λ (i : ℕ). ap (count i) a.same_nodes in
            let r =
              link_all-err vs g₁ e a.linked
                (λ i.
                  ap (λ (d : GoMap Node). count i d.keys) a.same_dict ∙ keys i ∙ sym (nodes_same i))
                (λ i. omega (arith, hv i, nodes_same i)) rest in
            record {
              node = r.node;
              among = ground (arith, r.among);
              dangling = back x g g₁ e r.node a r.dangling;
            }
      ]
    where
      back :
          (x : ℕ) (g g₁ : ExecutionGraph) (e : Err) (v : ℕ)
          → Linked x (depends g x) g g₁
          → Dangling g₁ (depends g₁ v) e
          → Dangling g (depends g v) e
      back x g g₁ e v a r = record {
        dep = r.dep;
        listed =
            subst (λ (d : GoMap Node). Memᴰ r.dep (d.at v).node_data.step.depends) a.same_dict
              r.listed;
        named = r.named;
        absent = λ i m.
            subst (λ (d : GoMap Node). (d.at i).node_data.step.name ≢ r.dep) a.same_dict
              (r.absent i (omega (arith, ap (count i) a.same_nodes)));
      }

IsFresh-IsLinked : (g : ExecutionGraph) → IsFresh g → IsLinked g
IsFresh-IsLinked g f = record {
  distinct = f.distinct;
  converse = λ u v. ground (arith, f.no_to v, f.no_from u);
  target = λ u v e. absurd (ground (arith, f.no_to v));
  origin = λ u v e. absurd (ground (arith, f.no_to v));
  supported = λ k _. f.no_to k;
}

-- A graph that `setup` made of `g`: the same nodes, each with one edge for every dependency of its
-- step, in order, from a node of that name; and no node depends on itself.
pub record IsSetUp (g g' : ExecutionGraph) : Type 0 where
  pub same_nodes : g'.nodes ≡ g.nodes
  pub same_dict : g'.dict ≡ g.dict
  pub linked : IsLinked g'
  pub into : (v : ℕ) → 0 < count v g.nodes → map (name g) (g'.to.at v) ≡ depends g v
  pub accepted : has_cycle g' ≡ false
  pub acyclic : (w : ℕ) → ¬ Walk g' w w

module _ (order : MapOrder) (fair : IsMapOrder order) (g : ExecutionGraph) (fresh : IsFresh g) where
  linked_all : (g' : ExecutionGraph) → link_all order g.nodes g ≡ ok g' → LinkedAll g.nodes g g'
  linked_all g' =
      link_all-LinkedAll order fair g.nodes g g' (IsFresh-IsLinked g fresh) fresh.keys
        (λ i. omega arith)

  -- When `setup` succeeds, the graph keeps its nodes, the nodes that point at a node bear the names
  -- in its `Depends`, in order, and no walk leads from a node back to it.
  pub setup_accepts : (g' : ExecutionGraph) → setup order g ≡ ok g' → IsSetUp g g'
  unfolding setup
  setup_accepts g' h =
      let (g₁, all, rest) = >>=-eq-ok (link_all order g.nodes g) _ h in
      let no_cycle : has_cycle g₁ ≡ false = ground arith in
      let same : g₁ ≡ g' = ok-injective (rw no_cycle at rest) in
      let a = linked_all g₁ all in
      subst (IsSetUp g) same (record {
        same_nodes = a.same_nodes;
        same_dict = a.same_dict;
        linked = a.linked;
        into = λ v m. ground (arith, a.into v, fresh.no_to v);
        accepted = no_cycle;
        acyclic = no_cycle_found g₁ a.linked no_cycle;
      })

  -- An error of `setup` is either that a dependency of some node names no node, and the error says
  -- which, or that the graph with all its edges has a cycle.
  pub setup_rejects :
      (e : Err)
      → setup order g ≡ err e
      → DanglingNode g g.nodes e
        ⊎ ((e ≡ cycle_detected)
            × (g' : ExecutionGraph) × LinkedAll g.nodes g g'
            × ((w : ℕ) × Walk g' w w))
  unfolding setup
  setup_rejects e h = elim (>>=-eq-err (link_all order g.nodes g) _ h) [
    | inl missing ↦ inl (
        link_all-err order fair g.nodes g e (IsFresh-IsLinked g fresh) fresh.keys (λ i. omega arith)
          missing)
    | inr (g₁, all, rest) ↦
        let cyclic : has_cycle g₁ ≡ true = ground arith in
        let a = linked_all g₁ all in inr (ground arith, g₁, a, cycle_found g₁ a.linked cyclic)
  ]
