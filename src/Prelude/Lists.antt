-- ===== src/Prelude/Lists.antt =====
-- Lists measured by native numbers: lengths, occurrences, quantifiers.
use Prim.Native.Nat.{ℕ, suc, ◌+◌, ◌-◌, ◌≤◌, ◌<◌}
use mathlib.Core.Path.{◌≡◌, refl, ap}
use mathlib.Core.Logic.{◌⊎◌, inl, inr}
use mathlib.Core.Bool.{Bool, true, false, ◌&&◌, ◌||◌}
use mathlib.Core.List.{List, [], ◌∷◌, ◌++◌}
use native.Mathlib.Omega.{arith}
use light_soar.Prelude.Tests.{Bool-cases, ==→eq, ◌==◌, if◌then◌else◌}

module _ {ℓ} {A : Type ℓ} where
  abbrev pub length : List A → ℕ
  length [] = 0
  length (x ∷ xs) = suc (length xs)

  abbrev pub any : (A → Bool) → List A → Bool
  any p [] = false
  any p (x ∷ xs) = p x || any p xs

  abbrev pub all : (A → Bool) → List A → Bool
  all p [] = true
  all p (x ∷ xs) = p x && all p xs

pub length-append {ℓ} : {A : Type ℓ} (xs ys : List A) → length (xs ++ ys) ≡ length xs + length ys
length-append [] ys = omega arith
length-append (x ∷ xs) ys = omega (arith, length-append xs ys)

-- Every element of the list has the property.
abbrev pub All {ℓ κ} : {A : Type ℓ} → (A → Type κ) → List A → Type κ
All P [] = Unit
All P (a ∷ rest) = P a × All P rest

-- How often `a` occurs; `0 < count a xs` says that it occurs.
abbrev pub count : ℕ → List ℕ → ℕ
count a [] = 0
count a (x ∷ xs) = (if x == a then 1 else 0) + count a xs

abbrev pub remove_first : ℕ → List ℕ → List ℕ
remove_first a [] = []
remove_first a (x ∷ xs) = if x == a then xs else x ∷ remove_first a xs

pub count-remove_first :
    (a b : ℕ) (xs : List ℕ) → count b (remove_first a xs) ≡ count b xs - (if a == b then 1 else 0)
count-remove_first a b [] = ground arith
count-remove_first a b (x ∷ xs) = ground (arith, count-remove_first a b xs)

pub count-append :
    (k : ℕ) (front back : List ℕ) → count k (front ++ back) ≡ count k front + count k back
count-append k [] back = omega arith
count-append k (u ∷ front) back = ground (arith, count-append k front back)

pub length-remove_first :
    (a : ℕ) (xs : List ℕ) → 0 < count a xs → suc (length (remove_first a xs)) ≡ length xs
length-remove_first a [] h = absurd (omega arith)
length-remove_first a (x ∷ xs) h = ground (arith, length-remove_first a xs)

-- A list whose elements occur at least as often in another is no longer than that one.
pub length-le_of_count :
    (xs ys : List ℕ) → ((a : ℕ) → count a xs ≤ count a ys) → length xs ≤ length ys
length-le_of_count [] ys h = omega arith
length-le_of_count (x ∷ xs) ys h =
    let rest =
      length-le_of_count xs (remove_first x ys)
        (λ a. ground (arith, h a, count-remove_first x a ys)) in
    ground (arith, h x, rest, length-remove_first x ys)

pub any_of_count :
    (p : ℕ → Bool) (xs : List ℕ) (a : ℕ) → any p xs ≡ false → 0 < count a xs → p a ≡ false
any_of_count p [] a h m = absurd (omega arith)
any_of_count p (x ∷ xs) a h m = ground (arith, any_of_count p xs a)

pub any-none : (p : ℕ → Bool) (xs : List ℕ) → ((a : ℕ) → p a ≡ false) → any p xs ≡ false
any-none p [] h = refl
any-none p (x ∷ xs) h = ground (arith, h x, any-none p xs h)

pub any_found : (p : ℕ → Bool) (xs : List ℕ) → any p xs ≡ true → (a : ℕ) × (p a ≡ true)
any_found p [] h = cc
any_found p (x ∷ xs) h = elim (Bool-cases (p x)) [
  | inl here ↦ (x, here)
  | inr not_here ↦ any_found p xs (rw not_here at h)
]

-- An element with the property, or none has it.
pub any_member :
    (p : ℕ → Bool) (xs : List ℕ)
    → ((a : ℕ) × (0 < count a xs) × (p a ≡ true)) ⊎ ((a : ℕ) → 0 < count a xs → p a ≡ false)
any_member p [] = inr (λ a h. absurd (omega arith))
any_member p (x ∷ xs) = elim (Bool-cases (p x)) [
  | inl here ↦ inl (x, ground arith, here)
  | inr not_here ↦ elim (any_member p xs) [
    | inl (a, m, later) ↦ inl (a, ground (arith, m), later)
    | inr nowhere ↦ inr (λ a m. elim (Bool-cases (x == a)) [
      | inl same ↦ ground (arith, same, not_here, ap p (==→eq x a same))
      | inr other ↦ nowhere a (ground (arith, other, m))
    ])
  ]
]
