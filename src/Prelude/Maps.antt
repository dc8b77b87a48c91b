-- ===== src/Prelude/Maps.antt =====
-- Go's `map[int]V`: the keys that are present, and what a read gives. A read of a missing key
-- gives the zero value of `V`, which `empty` takes.
use Prim.Native.Nat.{ℕ}
use mathlib.Core.Path.{◌≡◌}
use mathlib.Core.Logic.{◌≢◌, inl, inr}
use mathlib.Core.List.{List, [], ◌∷◌, ◌++◌}
use native.Mathlib.Omega.{arith}
use light_soar.Prelude.Tests.{Bool-cases, ◌==◌, if◌then◌else◌}
use light_soar.Prelude.Lists.{count, count-append}

pub record GoMap (V : Type 0) : Type 0 where
  pub keys : List ℕ
  pub at : ℕ → V

module _ {V : Type 0} where
  abbrev pub empty : V → GoMap V
  empty z = record { keys = []; at = λ _. z }

  -- `m[k] = v`
  abbrev pub put : GoMap V → ℕ → V → GoMap V
  put m k v = record {
    keys = if count k m.keys == 0 then m.keys ++ k ∷ [] else m.keys;
    at = λ j. if k == j then v else m.at j;
  }

  -- Every key that is not present reads as the zero value.
  abbrev pub IsSupported : V → GoMap V → Type 0
  IsSupported z m = (k : ℕ) → count k m.keys ≡ 0 → m.at k ≡ z

  pub put-IsSupported :
      (z : V) (m : GoMap V) (k : ℕ) (v : V) → IsSupported z m → IsSupported z (put m k v)
  put-IsSupported z m k v h j = ground (arith, h j, count-append j m.keys (k ∷ []))

  pub put_self : (m : GoMap V) (k j : ℕ) (v : V) → k ≡ j → (put m k v).at j ≡ v
  put_self m k j v h = elim (Bool-cases (k == j)) [
    | inl same ↦ rw same
    | inr other ↦ absurd (ground arith)
  ]

  pub put_ne : (m : GoMap V) (k j : ℕ) (v : V) → k ≢ j → (put m k v).at j ≡ m.at j
  put_ne m k j v h = elim (Bool-cases (k == j)) [
    | inl same ↦ absurd (h (ground arith))
    | inr other ↦ rw other
  ]
