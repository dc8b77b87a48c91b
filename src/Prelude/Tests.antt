-- ===== src/Prelude/Tests.antt =====
-- Boolean tests on native numbers and integers, the conditional, and the cases of a computed value.
use Prim.Native.Nat.{ℕ, zero, suc, compare, Ordering}
use mathlib.Core.Path.{◌≡◌, refl}
use mathlib.Core.Logic.{◌⊎◌, inl, inr}
use mathlib.Core.Bool.{Bool, true, false}
use mathlib.Core.Option.{Option, none, some}
use mathlib.Core.List.{List, [], ◌∷◌}
use native.Mathlib.Omega.{arith}

abbrev pub ltb : ℕ → ℕ → Bool
ltb a b = elim (compare a b) [ Ordering.lt ↦ true | _ ↦ false ]

abbrev pub leb : ℕ → ℕ → Bool
leb a b = elim (compare a b) [ Ordering.gt ↦ false | _ ↦ true ]

infix 50 ◌==◌
abbrev pub ◌==◌ : ℕ → ℕ → Bool
a == b = elim (compare a b) [ Ordering.eq ↦ true | _ ↦ false ]

pub ==→eq : (a b : ℕ) → (a == b) ≡ true → a ≡ b
==→eq a b h = ground arith

infix 1 if◌then◌else◌
abbrev pub if◌then◌else◌ {ℓ} : {A : Type ℓ} → Bool → A → A → A
if true then x else y = x
if false then x else y = y

-- What holds of both branches holds of the conditional.
pub if_ind {ℓ κ} :
    {A : Type ℓ} (P : A → Type κ) (b : Bool) {x y : A} → P x → P y → P (if b then x else y)
if_ind P true h k = h
if_ind P false h k = k

-- The same, where a case needs what the test gave.
pub if_split {ℓ κ} :
    {A : Type ℓ} (P : A → Type κ) (b : Bool) {x y : A}
    → (b ≡ true → P x)
    → (b ≡ false → P y)
    → P (if b then x else y)
if_split P true h k = h refl
if_split P false h k = k refl

pub true_ne_false : ¬ (true ≡ false)
true_ne_false h = cc

pub Bool-cases : (b : Bool) → (b ≡ true) ⊎ (b ≡ false)
Bool-cases true = inl refl
Bool-cases false = inr refl

pub Option-cases {ℓ} : {A : Type ℓ} (o : Option A) → (o ≡ none) ⊎ ((a : A) × (o ≡ some a))
Option-cases none = inl refl
Option-cases (some a) = inr (a, refl)

pub List-cases {ℓ} :
    {A : Type ℓ} (xs : List A) → (xs ≡ []) ⊎ ((x : A) × (rest : List A) × (xs ≡ x ∷ rest))
List-cases [] = inl refl
List-cases (x ∷ xs) = inr (x, xs, refl)

-- Go's signed `int`: `negsuc n` is -(n + 1).
pub data ℤ : Type 0 where
  pos : ℕ → ℤ
  negsuc : ℕ → ℤ

abbrev pub pred_int : ℤ → ℤ
pred_int (pos zero) = negsuc 0
pred_int (pos (suc n)) = pos n
pred_int (negsuc n) = negsuc (suc n)

abbrev pub succ_int : ℤ → ℤ
succ_int (pos n) = pos (suc n)
succ_int (negsuc zero) = pos 0
succ_int (negsuc (suc n)) = negsuc n

abbrev pub is_zero_int : ℤ → Bool
is_zero_int (pos zero) = true
is_zero_int (pos (suc n)) = false
is_zero_int (negsuc n) = false

abbrev pub is_positive_int : ℤ → Bool
is_positive_int (pos zero) = false
is_positive_int (pos (suc n)) = true
is_positive_int (negsuc n) = false

abbrev pub int_eq : ℤ → ℤ → Bool
int_eq (pos a) (pos b) = a == b
int_eq (negsuc a) (negsuc b) = a == b
int_eq _ _ = false

-- `a > b` for an `int` and a counter that is never negative
abbrev pub int_exceeds : ℤ → ℕ → Bool
int_exceeds (pos a) n = ltb n a
int_exceeds (negsuc a) n = false

abbrev pub int_gt : ℤ → ℤ → Bool
int_gt (pos a) (pos b) = ltb b a
int_gt (pos a) (negsuc b) = true
int_gt (negsuc a) (pos b) = false
int_gt (negsuc a) (negsuc b) = ltb a b
