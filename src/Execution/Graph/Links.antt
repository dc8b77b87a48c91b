-- ===== src/Execution/Graph/Links.antt =====
-- The loops of `setup` that add the edges, when they succeed.
use native.Mathlib.Decide.{ℕ_discrete}
use light_soar.Prelude.{
  ℕ, ◌≤◌, ◌<◌, ◌==◌, List, [], ◌∷◌, ◌++◌, map, Text, text_eq, text_eq_iff, if◌then◌else◌, count,
  GoMap, put-IsSupported, ◌≡◌, ◌≢◌, refl, sym, subst, ◌∙◌, ap, inl, inr, arith, Bool-cases,
  count-append,
}
use mathlib.Core.List.{append-nil, append_assoc, map-append}
use light_soar.Execution.Data.{Node}
use light_soar.Execution.Status.{Err, step_not_found}
use light_soar.Execution.Graph.Defs.{
  ExecutionGraph, name, depends, Result, ok, err, ◌>>=◌, MapOrder, add_edge, find_step, link,
  link_all,
}
use light_soar.Execution.Graph.Linked.{IsLinked}

-- What Go promises of `range` over a map: it gives the keys that are present, each once.
abbrev pub IsMapOrder : MapOrder → Type 0
IsMapOrder order =
    (v : ℕ) (deps : List Text) (keys : List ℕ) (a : ℕ) → count a (order v deps keys) ≡ count a keys

-- The nodes have numbers of their own, `dict` holds just them, and there is no edge yet.
pub record IsFresh (g : ExecutionGraph) : Type 0 where
  pub distinct : (v : ℕ) → count v g.nodes ≤ 1
  pub keys : (v : ℕ) → count v g.dict.keys ≡ count v g.nodes
  pub no_from : (v : ℕ) → g.from.at v ≡ []
  pub no_to : (v : ℕ) → g.to.at v ≡ []

pub ok-injective : {A : Type 0} {a b : A} → ok a ≡ ok b → a ≡ b
ok-injective h = cc

pub >>=-eq-ok :
    {A B : Type 0} {last : B} (r : Result A) (rest : A → Result B)
    → (r >>= rest) ≡ ok last
    → (first : A) × (r ≡ ok first) × (rest first ≡ ok last)
>>=-eq-ok (ok first) rest h = (first, refl, h)
>>=-eq-ok (err x) rest h = cc

pub add_edge-IsLinked :
    (g : ExecutionGraph) (u v : ℕ)
    → IsLinked g
    → count u g.nodes ≡ 1
    → count v g.nodes ≡ 1
    → IsLinked (add_edge g u v)
unfolding add_edge
add_edge-IsLinked g u v l hu hv = record {
  distinct = l.distinct;
  converse = λ a b. ground (
    arith,
    l.converse a b,
    count-append a (g.to.at v) (u ∷ []),
    count-append b (g.from.at u) (v ∷ []),
  );
  target = λ a b. ground (arith, l.target a b, count-append a (g.to.at v) (u ∷ []));
  origin = λ a b. ground (arith, l.origin a b, count-append a (g.to.at v) (u ∷ []));
  supported = put-IsSupported [] g.to v _ l.supported;
}

add_edge-to_self : (g : ExecutionGraph) (u v : ℕ) → (add_edge g u v).to.at v ≡ g.to.at v ++ u ∷ []
unfolding add_edge
add_edge-to_self g u v = ground arith

add_edge-to_ne : (g : ExecutionGraph) (u v w : ℕ) → w ≢ v → (add_edge g u v).to.at w ≡ g.to.at w
unfolding add_edge
add_edge-to_ne g u v w h = ground arith

-- `findStep` gives the number of a node of that name, or says that there is none.
pub find_step-ok :
    (g : ExecutionGraph) (dep : Text) (is : List ℕ) (u : ℕ)
    → find_step g dep is ≡ ok u
    → (0 < count u is) × (name g u ≡ dep)
unfolding find_step
find_step-ok g dep [] u h = cc
find_step-ok g dep (i ∷ is) u h =
    ground (arith, text_eq_iff (name g i) dep, find_step-ok g dep is u)

-- An error of `findStep` names the dependency, and no node that was looked at has that name.
pub find_step-err :
    (g : ExecutionGraph) (dep : Text) (is : List ℕ) (e : Err)
    → find_step g dep is ≡ err e
    → (e ≡ step_not_found dep) × ((i : ℕ) → 0 < count i is → name g i ≢ dep)
unfolding find_step
find_step-err g dep [] e h = (ground arith, λ i m. absurd (omega arith))
find_step-err g dep (x ∷ is) e h = elim (Bool-cases (text_eq (name g x) dep)) [
  | inl found ↦ absurd (ground arith)
  | inr other ↦
      let (same, none_of) = find_step-err g dep is e (ground arith) in
      (
        same,
        λ i m. elim (ℕ_discrete x i) [
          | yes here ↦ λ n. ground (arith, text_eq_iff (name g x) dep, ap (name g) here)
          | no later ↦ none_of i (ground arith)
        ],
      )
]

-- What a run of the inner loop that succeeds leaves: the edges into `v` are those that were there
-- and then one for each dependency, in order.
pub record Linked (v : ℕ) (deps : List Text) (g g' : ExecutionGraph) : Type 0 where
  pub same_nodes : g'.nodes ≡ g.nodes
  pub same_dict : g'.dict ≡ g.dict
  pub linked : IsLinked g'
  pub into : map (name g) (g'.to.at v) ≡ map (name g) (g.to.at v) ++ deps
  pub elsewhere : (w : ℕ) → w ≢ v → g'.to.at w ≡ g.to.at w

-- What a run of the outer loop that succeeds leaves, with the nodes `vs` done.
pub record LinkedAll (vs : List ℕ) (g g' : ExecutionGraph) : Type 0 where
  pub same_nodes : g'.nodes ≡ g.nodes
  pub same_dict : g'.dict ≡ g.dict
  pub linked : IsLinked g'
  pub into :
      (v : ℕ)
      → map (name g) (g'.to.at v)
        ≡ map (name g) (g.to.at v) ++ (if count v vs == 0 then [] else depends g v)

module _ (order : MapOrder) (fair : IsMapOrder order) where
  pub found_node :
      (g : ExecutionGraph) (v : ℕ) (dep : Text) (deps : List Text) (u : ℕ)
      → IsLinked g
      → ((i : ℕ) → count i g.dict.keys ≡ count i g.nodes)
      → find_step g dep (order v (dep ∷ deps) g.dict.keys) ≡ ok u
      → (count u g.nodes ≡ 1) × (name g u ≡ dep)
  found_node g v dep deps u l keys h =
      let (m, e) = find_step-ok g dep (order v (dep ∷ deps) g.dict.keys) u h in
      (omega (arith, fair v (dep ∷ deps) g.dict.keys u, keys u, l.distinct u), e)

  pub link-Linked :
      (v : ℕ) (deps : List Text) (g g' : ExecutionGraph)
      → IsLinked g
      → ((i : ℕ) → count i g.dict.keys ≡ count i g.nodes)
      → count v g.nodes ≡ 1
      → link order v deps g ≡ ok g'
      → Linked v deps g g'
  unfolding link
  link-Linked v [] g g' l keys hv h =
      let e : g ≡ g' = ok-injective h in
      subst (Linked v [] g) e (record {
        same_nodes = refl;
        same_dict = refl;
        linked = l;
        into = sym (append-nil _);
        elsewhere = λ w n. refl;
      })
  link-Linked v (dep ∷ deps) g g' l keys hv h =
      let (u, found, rest) = >>=-eq-ok (find_step g dep (order v (dep ∷ deps) g.dict.keys)) _ h in
      let (node, named) = found_node g v dep deps u l keys found in
      let r =
        link-Linked v deps (add_edge g u v) g' (add_edge-IsLinked g u v l node hv) keys hv rest in
      record {
        same_nodes = r.same_nodes;
        same_dict = r.same_dict;
        linked = r.linked;
        into = r.into ∙ rw (add_edge-to_self g u v) (simp (map-append, append_assoc) (rw named));
        elsewhere = λ w n. r.elsewhere w n ∙ add_edge-to_ne g u v w n;
      }

  into-cons :
      (x : ℕ) (vs : List ℕ) (g g₁ g' : ExecutionGraph) (v : ℕ)
      → Linked x (depends g x) g g₁
      → count x vs ≡ 0
      → map (name g₁) (g'.to.at v)
        ≡ map (name g₁) (g₁.to.at v) ++ (if count v vs == 0 then [] else depends g₁ v)
      → map (name g) (g'.to.at v)
        ≡ map (name g) (g.to.at v) ++ (if count v (x ∷ vs) == 0 then [] else depends g v)
  into-cons x vs g g₁ g' v a once later =
      let later' =
        subst
          (λ (d : GoMap Node).
            map (λ i. (d.at i).node_data.step.name) (g'.to.at v)
            ≡ map (λ i. (d.at i).node_data.step.name) (g₁.to.at v)
              ++ (if count v vs == 0 then [] else (d.at v).node_data.step.depends))
          a.same_dict later in
      elim (ℕ_discrete v x) [
        | yes same ↦
            let none_left : count v vs ≡ 0 = ground (arith, once) in
            let into_v =
              subst (λ w. map (name g) (g₁.to.at w) ≡ map (name g) (g.to.at w) ++ depends g w)
                (sym same) a.into in
            ground (arith, later', into_v, none_left, append-nil (map (name g) (g₁.to.at v)))
        | no other ↦ ground (arith, later', ap (map (name g)) (a.elsewhere v other))
      ]

  pub link_all-LinkedAll :
      (vs : List ℕ) (g g' : ExecutionGraph)
      → IsLinked g
      → ((i : ℕ) → count i g.dict.keys ≡ count i g.nodes)
      → ((i : ℕ) → count i vs ≤ count i g.nodes)
      → link_all order vs g ≡ ok g'
      → LinkedAll vs g g'
  unfolding link_all
  link_all-LinkedAll [] g g' l keys hv h =
      subst (LinkedAll [] g) (ok-injective h)
        (record { same_nodes = refl; same_dict = refl; linked = l; into = λ v. sym (append-nil _) })
  link_all-LinkedAll (x ∷ vs) g g' l keys hv h =
      let (g₁, first, rest) = >>=-eq-ok (link order x (depends g x) g) _ h in
      let a = link-Linked x (depends g x) g g₁ l keys (ground (arith, hv x, l.distinct x)) first in
      let same_keys = λ (i : ℕ). ap (λ (d : GoMap Node). count i d.keys) a.same_dict in
      let nodes_same = λ (i : ℕ). ap (count i) a.same_nodes in
      let b =
        link_all-LinkedAll vs g₁ g' a.linked (λ i. same_keys i ∙ keys i ∙ sym (nodes_same i))
          (λ i. omega (arith, hv i, nodes_same i)) rest in
      record {
        same_nodes = b.same_nodes ∙ a.same_nodes;
        same_dict = b.same_dict ∙ a.same_dict;
        linked = b.linked;
        into = λ v. into-cons x vs g g₁ g' v a (ground (arith, hv x, l.distinct x)) (b.into v);
      }
