-- ===== src/Execution/Graph/Kahn.antt =====
-- The inner loop of `hasCycle`: what the successors of one node do to the degrees and the queue.
use light_soar.Prelude.{
  ℕ, zero, suc, ◌+◌, ◌-◌, ◌≤◌, ◌<◌, ◌==◌, ℤ, pos, negsuc, pred_int, is_zero_int, List, [], ◌∷◌,
  ◌++◌, if◌then◌else◌, length, count, GoMap, put, IsSupported, put-IsSupported, ◌≡◌, refl, arith,
  count-append,
}
use light_soar.Execution.Graph.Defs.{release}

-- How many entries of a list are not yet done.
abbrev pub outstanding : List ℕ → List ℕ → ℕ
outstanding finished [] = 0
outstanding finished (u ∷ us) = (if count u finished == 0 then 1 else 0) + outstanding finished us

pub outstanding-nil : (us : List ℕ) → outstanding [] us ≡ length us
outstanding-nil [] = refl
outstanding-nil (u ∷ us) = omega (arith, outstanding-nil us)

pub outstanding-cons :
    (f : ℕ) (finished us : List ℕ)
    → count f finished ≡ 0
    → outstanding (f ∷ finished) us + count f us ≡ outstanding finished us
outstanding-cons f finished [] h = omega arith
outstanding-cons f finished (u ∷ us) h = ground (arith, outstanding-cons f finished us)

pub finished_of_outstanding :
    (finished us : List ℕ) (u : ℕ)
    → outstanding finished us ≡ 0
    → 0 < count u us
    → 0 < count u finished
finished_of_outstanding finished [] u h m = absurd (omega arith)
finished_of_outstanding finished (x ∷ us) u h m =
    ground (arith, finished_of_outstanding finished us u)

-- 1 if `k` decrements take a degree `c` to zero.
abbrev pub hit : ℕ → ℕ → ℕ
hit c k = if k == 0 then 0 else if c == k then 1 else 0

pub record Released (ts q : List ℕ) (c : ℕ → ℕ) (r : List ℕ × GoMap ℤ) : Type 0 where
  pub at : (v : ℕ) → r.1.at v ≡ pos (c v - count v ts)
  pub queue : (v : ℕ) → count v r.0 ≡ count v q + hit (c v) (count v ts)
  pub keys : IsSupported (pos 0) r.1

pred_int_pos : (z : ℤ) (n : ℕ) → z ≡ pos n → 0 < n → pred_int z ≡ pos (n - 1)
pred_int_pos (pos zero) n e h = ground arith
pred_int_pos (pos (suc m)) n e h = ground arith
pred_int_pos (negsuc m) n e h = cc

pub is_zero_int-pos : (z : ℤ) (n : ℕ) → z ≡ pos n → is_zero_int z ≡ (n == 0)
is_zero_int-pos (pos zero) n e = ground arith
is_zero_int-pos (pos (suc m)) n e = ground arith
is_zero_int-pos (negsuc m) n e = cc

abbrev lowered : GoMap ℤ → ℕ → GoMap ℤ
lowered degrees t = put degrees t (pred_int (degrees.at t))

abbrev queued : List ℕ → GoMap ℤ → ℕ → List ℕ
queued q degrees t = if is_zero_int (degrees.at t) then q ++ t ∷ [] else q

lowered_at :
    (degrees : GoMap ℤ) (c : ℕ → ℕ) (t v : ℕ)
    → degrees.at t ≡ pos (c t)
    → degrees.at v ≡ pos (c v)
    → 0 < c t
    → (lowered degrees t).at v ≡ pos (if t == v then c v - 1 else c v)
lowered_at degrees c t v ht hv h = ground (arith, pred_int_pos (degrees.at t) (c t) ht)

count-queued :
    (q : List ℕ) (degrees : GoMap ℤ) (n t v : ℕ)
    → degrees.at t ≡ pos n
    → count v (queued q degrees t) ≡ count v q + (if t == v then (if n == 0 then 1 else 0) else 0)
count-queued q degrees n t v h =
    ground (arith, is_zero_int-pos (degrees.at t) n h, count-append v q (t ∷ []))

pub release-Released :
    (ts q : List ℕ) (degrees : GoMap ℤ) (c : ℕ → ℕ)
    → ((v : ℕ) → degrees.at v ≡ pos (c v))
    → ((v : ℕ) → count v ts ≤ c v)
    → IsSupported (pos 0) degrees
    → Released ts q c (release ts q degrees)
unfolding release
release-Released [] q degrees c h k s = record {
  at = λ v. ground (arith, h v);
  queue = λ v. omega arith;
  keys = s;
}
release-Released (t ∷ ts) q degrees c h k s =
    let degrees' = lowered degrees t in
    let at' = λ (v : ℕ). lowered_at degrees c t v (h t) (h v) (ground (arith, k t)) in
    step
      (release-Released ts (queued q degrees' t) degrees' (λ v. if t == v then c v - 1 else c v) at'
        (λ v. ground (arith, k v)) (put-IsSupported (pos 0) degrees t _ s))
      (λ v. count-queued q degrees' (c t - 1) t v (ground (arith, at' t)))
  where
    step :
        {r : List ℕ × GoMap ℤ}
        → Released ts (queued q (lowered degrees t) t) (λ v. if t == v then c v - 1 else c v) r
        → ((v : ℕ)
            → count v (queued q (lowered degrees t) t)
              ≡ count v q + (if t == v then (if c t - 1 == 0 then 1 else 0) else 0))
        → Released (t ∷ ts) q c r
    step rest pushed = record {
      at = λ v. ground (arith, rest.at v, k v);
      queue = λ v. ground (arith, rest.queue v, pushed v, k v, k t);
      keys = rest.keys;
    }
