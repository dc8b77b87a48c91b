-- ===== src/Execution/Graph/Sweeps.antt =====
-- The loops of `setupRetry`, one by one: what each keeps and what each does.
use native.Mathlib.Decide.{ℕ_discrete, dec_lt}
use light_soar.Prelude.{
  ℕ, ◌≤◌, ◌<◌, Bool, true, List, [], ◌∷◌, ◌++◌, if◌then◌else◌, count, GoMap, put, ◌≡◌, subst, ap,
  ◌⊎◌, inl, inr, arith, count-append,
}
use light_soar.Execution.Data.{zero_state, clear_state}
use light_soar.Execution.Graph.Defs.{ExecutionGraph}
use light_soar.Execution.Graph.Construct.{Retrying, is_failed, visit, pass_on, sweep}

-- The state of node `v` is that of a node that never ran.
abbrev pub IsReset : Retrying → ℕ → Type 0
IsReset s v = (s.dict.at v).node_data.state ≡ zero_state

-- What no part of the loops takes back.
pub record Grows (s t : Retrying) : Type 0 where
  pub retry : (v : ℕ) → s.retry.at v ≡ true → t.retry.at v ≡ true
  pub reset : (v : ℕ) → IsReset s v → IsReset t v

pub Grows-refl : (s : Retrying) → Grows s s
Grows-refl s = record { retry = λ v h. h; reset = λ v h. h }

pub Grows-trans : {s t u : Retrying} → Grows s t → Grows t u → Grows s u
Grows-trans h k = record {
  retry = λ v m. k.retry v (h.retry v m);
  reset = λ v m. k.reset v (h.reset v m);
}

module _ (g : ExecutionGraph) where
  pass_on-Grows :
      (u : ℕ) (vs : List ℕ) (retry : GoMap Bool) (v : ℕ)
      → retry.at v ≡ true
      → (pass_on g u vs retry).at v ≡ true
  unfolding pass_on
  pass_on-Grows u [] retry v h = h
  pass_on-Grows u (x ∷ vs) retry v h =
      pass_on-Grows u vs (if retry.at u then put retry x true else retry) v (ground arith)

  -- The successors of a node that is marked are marked.
  pass_on-marks :
      (u : ℕ) (vs : List ℕ) (retry : GoMap Bool) (v : ℕ)
      → retry.at u ≡ true
      → 0 < count v vs
      → (pass_on g u vs retry).at v ≡ true
  unfolding pass_on
  pass_on-marks u [] retry v h m = absurd (omega arith)
  pass_on-marks u (x ∷ vs) retry v h m = elim (ℕ_discrete x v) [
    | yes here ↦
        pass_on-Grows u vs (if retry.at u then put retry x true else retry) v (ground arith)
    | no later ↦
        pass_on-marks u vs (if retry.at u then put retry x true else retry) v (ground arith)
          (ground arith)
  ]

  visit-Grows : (u : ℕ) (s : Retrying) → Grows s (visit g u s)
  unfolding visit clear_state
  visit-Grows u s = record { retry = λ v h. ground arith; reset = λ v h. ground arith }

  -- A node that is marked or failed is reset and marked.
  visit-resets :
      (u : ℕ) (s : Retrying)
      → (s.retry.at u ≡ true) ⊎ (is_failed g u ≡ true)
      → IsReset (visit g u s) u × ((visit g u s).retry.at u ≡ true)
  unfolding visit clear_state
  visit-resets u s (inl h) = (ground arith, ground arith)
  visit-resets u s (inr h) = (ground arith, ground arith)

  abbrev visited : ℕ → Retrying → Retrying
  visited u s = record (visit g u s) { retry = pass_on g u (g.from.at u) (visit g u s).retry }

  visited-Grows : (u : ℕ) (s : Retrying) → Grows s (visited u s)
  visited-Grows u s =
      let h = visit-Grows u s in
      record {
        retry = λ v m. pass_on-Grows u (g.from.at u) (visit g u s).retry v (h.retry v m);
        reset = h.reset;
      }

  pub sweep-Grows : (us next : List ℕ) (s : Retrying) → Grows s (sweep g us next s).1
  unfolding sweep
  sweep-Grows [] next s = Grows-refl s
  sweep-Grows (u ∷ us) next s =
      Grows-trans (visited-Grows u s) (sweep-Grows us (next ++ g.from.at u) (visited u s))

  abbrev pub IsHot : Retrying → ℕ → Type 0
  IsHot s x = (s.retry.at x ≡ true) ⊎ (is_failed g x ≡ true)

  abbrev pub IsHandled : Retrying → ℕ → Type 0
  IsHandled s x = IsReset s x × ((v : ℕ) → 0 < count v (g.from.at x) → s.retry.at v ≡ true)

  IsHot-Grows : {s t : Retrying} (x : ℕ) → Grows s t → IsHot s x → IsHot t x
  IsHot-Grows x w (inl h) = inl (w.retry x h)
  IsHot-Grows x w (inr h) = inr h

  IsHandled-Grows : {s t : Retrying} (x : ℕ) → Grows s t → IsHandled s x → IsHandled t x
  IsHandled-Grows x w (h, k) = (w.reset x h, λ v m. w.retry v (k v m))

  visited-IsHandled : (u : ℕ) (s : Retrying) → IsHot s u → IsHandled (visited u s) u
  visited-IsHandled u s h =
      let (reset, marked) = visit-resets u s h in
      (reset, λ v m. pass_on-marks u (g.from.at u) (visit g u s).retry v marked m)

  -- A node of the frontier that is marked or failed is reset, and its successors are marked.
  pub sweep-IsHandled :
      (us next : List ℕ) (s : Retrying) (x : ℕ)
      → 0 < count x us
      → IsHot s x
      → IsHandled (sweep g us next s).1 x
  unfolding sweep
  sweep-IsHandled [] next s x m h = absurd (omega arith)
  sweep-IsHandled (u ∷ us) next s x m h = elim (ℕ_discrete x u) [
    | yes here ↦
        IsHandled-Grows x (sweep-Grows us (next ++ g.from.at u) (visited u s))
          (subst (λ y. IsHandled (visited y s) x) here (visited-IsHandled x s h))
    | no later ↦
        sweep-IsHandled us (next ++ g.from.at u) (visited u s) x (ground arith)
          (IsHot-Grows x (visited-Grows u s) h)
  ]

  -- The next frontier holds the successors of this one, as often as edges lead to them, and nothing
  -- else but what it held before.
  pub sweep_keeps :
      (us next : List ℕ) (s : Retrying) (v : ℕ) → count v next ≤ count v (sweep g us next s).0
  unfolding sweep
  sweep_keeps [] next s v = omega arith
  sweep_keeps (u ∷ us) next s v = omega (
    arith,
    count-append v next (g.from.at u),
    sweep_keeps us (next ++ g.from.at u) (visited u s) v,
  )

  pub sweep_collects :
      (us next : List ℕ) (s : Retrying) (x v : ℕ)
      → 0 < count x us
      → 0 < count v (g.from.at x)
      → 0 < count v (sweep g us next s).0
  unfolding sweep
  sweep_collects [] next s x v m e = absurd (omega arith)
  sweep_collects (u ∷ us) next s x v m e = elim (ℕ_discrete u x) [
    | yes here ↦ omega (
      arith,
      ap (λ (y : ℕ). count v (g.from.at y)) here,
      count-append v next (g.from.at u),
      sweep_keeps us (next ++ g.from.at u) (visited u s) v,
    )
    | no later ↦ sweep_collects us (next ++ g.from.at u) (visited u s) x v (ground arith) e
  ]

  pub sweep_only :
      (us next : List ℕ) (s : Retrying) (v : ℕ)
      → 0 < count v (sweep g us next s).0
      → (0 < count v next) ⊎ ((x : ℕ) × (0 < count x us) × (0 < count v (g.from.at x)))
  unfolding sweep
  sweep_only [] next s v m = inl m
  sweep_only (u ∷ us) next s v m = elim (sweep_only us (next ++ g.from.at u) (visited u s) v m) [
    | inl before ↦ elim (dec_lt 0 (count v next)) [
      | yes old ↦ inl old
      | no new ↦ inr (u, ground arith, omega (arith, count-append v next (g.from.at u)))
    ]
    | inr (x, mx, e) ↦ inr (x, ground arith, e)
  ]
