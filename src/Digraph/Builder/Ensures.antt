-- ===== src/Digraph/Builder/Ensures.antt =====
-- What a chain of results ensures of its value.
use light_soar.Prelude.{Option, none, some, Text, ◌≡◌, refl, subst}
use light_soar.Digraph.Builder.Result.{
  BuildErr, Result, ok, err, panic, ◌>>=◌, name_error, or_error, ok_injective,
}

-- What holds of the value if there is one.
abbrev pub Ensures {ℓ} : {A : Type ℓ} → (A → Type 0) → Result A → Type 0
Ensures P (ok a) = P a
Ensures P (err e) = Unit
Ensures P panic = Unit

pub Ensures-bind {ℓ κ} :
    {A : Type ℓ} {B : Type κ} (Q : B → Type 0) (m : Result A) (f : A → Result B)
    → ((a : A) → Ensures Q (f a))
    → Ensures Q (m >>= f)
Ensures-bind Q (ok a) f h = h a
Ensures-bind Q (err e) f h = tt
Ensures-bind Q panic f h = tt

pub Ensures-map {ℓ} :
    {A : Type ℓ} {P Q : A → Type 0} (m : Result A)
    → ((a : A) → P a → Q a)
    → Ensures P m
    → Ensures Q m
Ensures-map (ok a) f h = f a h
Ensures-map (err e) f h = tt
Ensures-map panic f h = tt

pub Ensures-then {ℓ κ} :
    {A : Type ℓ} {B : Type κ} (P : A → Type 0) (Q : B → Type 0) (m : Result A) (f : A → Result B)
    → Ensures P m
    → ((a : A) → P a → Ensures Q (f a))
    → Ensures Q (m >>= f)
Ensures-then P Q (ok a) f h k = k a h
Ensures-then P Q (err e) f h k = tt
Ensures-then P Q panic f h k = tt

pub Ensures-name_error {ℓ} :
    {A : Type ℓ} (P : A → Type 0) (name : Text) (m : Result A)
    → Ensures P m
    → Ensures P (name_error name m)
Ensures-name_error P name (ok a) h = h
Ensures-name_error P name (err e) h = tt
Ensures-name_error P name panic h = tt

pub Ensures-ok {ℓ} :
    {A : Type ℓ} (P : A → Type 0) (m : Result A) (a : A) → Ensures P m → m ≡ ok a → P a
Ensures-ok P (ok b) a h e = subst P (ok_injective e) h
Ensures-ok P (err x) a h e = absurd (cc)
Ensures-ok P panic a h e = absurd (cc)

pub or_error-some :
    {A : Type 0} (o : Option A) (e : BuildErr) → Ensures (λ a. o ≡ some a) (or_error o e)
or_error-some none e = tt
or_error-some (some a) e = refl
