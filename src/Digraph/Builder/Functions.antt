-- ===== src/Digraph/Builder/Functions.antt =====
-- What `assertFunctions` accepts (internal/digraph/assert.go).
use light_soar.Prelude.{
  ascii, ℕ, suc, zero, ◌-◌, ◌++◌, length, Bool, true, false, ◌||◌, List, [], ◌∷◌, if◌then◌else◌,
  any, All, Text, text_eq, text_eq_refl, text_eq→eq, ◌≡◌, ◌≢◌, refl, ap, ◌∙◌, arith,
}
use light_soar.Command.Defs.{split_from, has_prefix}
use light_soar.Digraph.Builder.Result.{BuildErr, Result, ok, err}
use light_soar.Digraph.Builder.Commands.{
  FuncDef, same_names, split_spaces, extract_param_names, assert_functions,
}

-- The names of the functions, each once.
abbrev Fresh : Text → List FuncDef → Type 0
Fresh name = All (λ (g : FuncDef). g.name ≢ name)

abbrev pub HaveOwnNames : List FuncDef → Type 0
HaveOwnNames [] = Unit
HaveOwnNames (f ∷ fs) = Fresh f.name fs × HaveOwnNames fs

-- The parameters are those that the command refers to, in order, and there is one.
pub record HasItsParams (f : FuncDef) : Type 0 where
  pub same : split_spaces f.params ≡ extract_param_names f.command
  pub some_param : extract_param_names f.command ≢ []

abbrev Unmet : List Text → FuncDef → Type 0
Unmet seen f = any (text_eq f.name) seen ≡ false

accepted :
    (a b : Bool) (x y : BuildErr) (m : Result (Unit {0})) (u : Unit {0})
    → (if a then err x else if b then m else err y) ≡ ok u
    → (a ≡ false) × (b ≡ true) × (m ≡ ok u)
accepted true b x y m u h = absurd (cc)
accepted false true x y m u h = (refl, refl, h)
accepted false false x y m u h = absurd (cc)

same_names-eq : (xs ys : List Text) → same_names xs ys ≡ true → xs ≡ ys
unfolding same_names
same_names-eq [] [] h = refl
same_names-eq [] (b ∷ ys) h = cc
same_names-eq (a ∷ xs) [] h = cc
same_names-eq (a ∷ xs) (b ∷ ys) h = ground (arith, text_eq→eq a b, same_names-eq xs ys)

split_from-ne : (sep : Text) (n : ℕ) (word s : Text) → split_from sep n word s ≢ []
unfolding split_from
split_from-ne sep n word [] h = cc
split_from-ne sep (suc n) word (c ∷ s) h = split_from-ne sep n word s h
split_from-ne sep zero word (c ∷ s) h =
    go (has_prefix sep (c ∷ s)) (split_from-ne sep zero (word ++ c ∷ []) s) h
  where
    go :
        (b : Bool)
        → split_from sep zero (word ++ c ∷ []) s ≢ []
        → elim b [
          | true ↦ word ∷ split_from sep (length sep - 1) [] s
          | false ↦ split_from sep zero (word ++ c ∷ []) s
        ]
          ≡ []
        → ⊥
    go true later k = cc
    go false later k = later k

not_met : (b c : Bool) → b || c ≡ false → b ≡ true → ⊥
not_met true c h k = cc
not_met false c h k = cc

others :
    (seen : List Text) (name : Text) (fs : List FuncDef)
    → All (Unmet (name ∷ seen)) fs
    → Fresh name fs × All (Unmet seen) fs
others seen name [] h = (tt, tt)
others seen name (g ∷ fs) h =
    let (a, b) = others seen name fs h.1 in
    let reflexive = text_eq_refl name in
    (
      ((λ e. not_met (text_eq g.name name) _ h.0 (ap (λ n. text_eq n name) e ∙ reflexive)), a),
      (ground arith, b),
    )

assert_functions-Unmet :
    (seen : List Text) (fs : List FuncDef) (u : Unit {0})
    → assert_functions seen fs ≡ ok u
    → All (Unmet seen) fs × HaveOwnNames fs × All HasItsParams fs
unfolding assert_functions
assert_functions-Unmet seen [] u h = (tt, tt, tt)
assert_functions-Unmet seen (f ∷ fs) u h =
    let (a, b, c) =
      accepted (any (text_eq f.name) seen)
        (same_names (split_spaces f.params) (extract_param_names f.command)) _ _ _ u h in
    let (x, y, z) = assert_functions-Unmet (f.name ∷ seen) fs u c in
    let (fresh, unmet) = others seen f.name fs x in
    let same = same_names-eq (split_spaces f.params) (extract_param_names f.command) b in
    (
      (a, unmet),
      (fresh, y),
      (
        record {
          same = same;
          some_param = λ e. split_from-ne (ascii " ") 0 [] f.params (same ∙ e);
        },
        z,
      ),
    )

-- Functions that `assertFunctions` accepts have pairwise different names, and each refers in its
-- command to exactly the names that its parameters are split into, in order.
pub assert_functions-HaveOwnNames :
    (fs : List FuncDef) (u : Unit {0})
    → assert_functions [] fs ≡ ok u
    → HaveOwnNames fs × All HasItsParams fs
assert_functions-HaveOwnNames fs u h = let (_, x, y) = assert_functions-Unmet [] fs u h in (x, y)
