-- ===== src/Digraph/Params/Override.antt =====
-- What overriding makes of named parameters.
use light_soar.Prelude.{
  ℕ, suc, ltb, Bool, true, false, Bool-cases, Option, none, some, List, [], ◌∷◌, ◌++◌, length,
  if◌then◌else◌, All, Text, text_eq, text_eq→eq, ◌≡◌, ◌≢◌, refl, sym, ap, ◌∙◌, subst, ◌⊎◌, inl, inr,
}
use light_soar.Digraph.Params.Defs.{
  ParamPair, found_at, find_last, set_at, place, override_one, override_from, override_params,
}

abbrev pub or_else : Option Text → Option Text → Option Text
or_else (some v) o = some v
or_else none o = o

-- The value of the last pair with a name.
unfoldable pub value_of : Text → List ParamPair → Option Text
unfolding text_eq
value_of n [] = none
value_of n (p ∷ ps) = or_else (value_of n ps) (if text_eq p.name n then some p.value else none)

pushed :
    (b : Bool) (v : Text) (x rest : Option Text)
    → or_else (if b then some v else x) rest ≡ (if b then some v else or_else x rest)
pushed true v x rest = refl
pushed false v x rest = refl

or_else-none : (x : Option Text) → or_else x none ≡ x
or_else-none (some v) = refl
or_else-none none = refl

found_at-none : (o : Option ℕ) (b : Bool) → found_at o b ≡ none → (o ≡ none) × (b ≡ false)
found_at-none (some j) b h = absurd (cc)
found_at-none none true h = absurd (cc)
found_at-none none false h = (refl, refl)

found_at-some :
    (o : Option ℕ) (b : Bool) (j : ℕ)
    → found_at o b ≡ some j
    → ((k : ℕ) × (o ≡ some k) × (suc k ≡ j)) ⊎ ((o ≡ none) × (b ≡ true) × (0 ≡ j))
found_at-some (some k) b j h = inl (k, refl, cc)
found_at-some none true j h = inr (refl, refl, cc)
found_at-some none false j h = absurd (cc)

value_of-append :
    (n : Text) (ps : List ParamPair) (p : ParamPair)
    → value_of n (ps ++ p ∷ []) ≡ (if text_eq p.name n then some p.value else value_of n ps)
unfolding value_of
value_of-append n [] p = refl
value_of-append n (q ∷ ps) p = rw (value_of-append n ps p) (
    pushed (text_eq p.name n) p.value (value_of n ps)
      (if text_eq q.name n then some q.value else none))

find_last-append :
    (n : Text) (ps : List ParamPair) (p : ParamPair)
    → text_eq p.name n ≡ false
    → find_last n (ps ++ p ∷ []) ≡ find_last n ps
unfolding find_last
find_last-append n [] p h = rw h
find_last-append n (q ∷ ps) p h =
    ap (λ o. found_at o (text_eq q.name n)) (find_last-append n ps p h)

value_of-none : (n : Text) (ps : List ParamPair) → find_last n ps ≡ none → value_of n ps ≡ none
unfolding find_last value_of
value_of-none n [] h = refl
value_of-none n (q ∷ ps) h =
    let (later, here) = found_at-none (find_last n ps) (text_eq q.name n) h in
    rw (value_of-none n ps later) (rw here refl)

abbrev IsPut : ParamPair → List ParamPair → Text → List ParamPair → Type 0
IsPut p ps n qs =
    (value_of n qs ≡ (if text_eq p.name n then some p.value else value_of n ps))
    × (find_last n qs ≡ find_last n ps)

set_here :
    (p q : ParamPair) (qs : List ParamPair)
    → find_last p.name qs ≡ none
    → text_eq q.name p.name ≡ true
    → (n : Text) → IsPut p (q ∷ qs) n (p ∷ qs)
unfolding find_last value_of
set_here p q qs nowhere same n =
    let alike = ap (λ m. text_eq m n) (text_eq→eq q.name p.name same) in
    (
      elim (Bool-cases (text_eq p.name n)) [
        | inl yes_here ↦
            let gone =
              value_of-none n qs
                (ap (λ m. find_last m qs) (sym (text_eq→eq p.name n yes_here)) ∙ nowhere) in
            rw gone (rw yes_here refl)
        | inr not_here ↦ rw (alike ∙ not_here) (rw not_here refl)
      ],
      ap (found_at (find_last n qs)) (sym alike),
    )

-- A pair takes the place of the last one with its name.
set_at-lem :
    (p : ParamPair) (j : ℕ) (ps : List ParamPair)
    → find_last p.name ps ≡ some j
    → (n : Text) → IsPut p ps n (set_at j p ps)
unfolding find_last value_of set_at
set_at-lem p j [] h n = absurd (cc)
set_at-lem p j (q ∷ qs) h n =
    elim (found_at-some (find_last p.name qs) (text_eq q.name p.name) j h) [
      | inl (k, later, e) ↦
          let (v, f) = set_at-lem p k qs later n in
          subst (λ i. IsPut p (q ∷ qs) n (set_at i p (q ∷ qs))) e
            (
              ap (λ x. or_else x (if text_eq q.name n then some q.value else none)) v
                  ∙ pushed (text_eq p.name n) p.value (value_of n qs)
                      (if text_eq q.name n then some q.value else none),
              ap (λ o. found_at o (text_eq q.name n)) f,
            )
      | inr (nowhere, same, e) ↦
          subst (λ i. IsPut p (q ∷ qs) n (set_at i p (q ∷ qs))) e (set_here p q qs nowhere same n)
    ]

-- The index finds in the pairs as they are now what it found in those that it was made of.
abbrev IsIndexed : List ParamPair → List ParamPair → Type 0
IsIndexed indexed ps = (m : Text) (j : ℕ) → find_last m indexed ≡ some j → find_last m ps ≡ some j

abbrev IsPlaced : List ParamPair → ParamPair → List ParamPair → List ParamPair → Type 0
IsPlaced indexed p ps qs =
    IsIndexed indexed qs
    × ((n : Text) → value_of n qs ≡ (if text_eq p.name n then some p.value else value_of n ps))

placed :
    (indexed ps : List ParamPair) (p : ParamPair)
    → IsIndexed indexed ps
    → (o : Option ℕ) → find_last p.name indexed ≡ o
    → IsPlaced indexed p ps (place o p ps)
unfolding place
placed indexed ps p fits (some j) e =
    let at_j = set_at-lem p j ps (fits p.name j e) in
    ((λ m k h. (at_j m).1 ∙ fits m k h), (λ n. (at_j n).0))
placed indexed ps p fits none e = (
  λ m k h. elim (Bool-cases (text_eq p.name m)) [
    | inl same ↦
        let gone = ap (λ x. find_last x indexed) (sym (text_eq→eq p.name m same)) ∙ e in absurd (cc)
    | inr differs ↦ find_last-append m ps p differs ∙ fits m k h
  ],
  λ n. value_of-append n ps p,
)

is_named : (p : ParamPair) → p.name ≢ [] → text_eq p.name [] ≡ false
is_named p h = elim (Bool-cases (text_eq p.name [])) [
  | inl empty ↦ absurd (h (text_eq→eq p.name [] empty))
  | inr named ↦ named
]

override_one-IsPlaced :
    (indexed ps : List ParamPair) (i : ℕ) (p : ParamPair)
    → p.name ≢ []
    → IsIndexed indexed ps
    → IsPlaced indexed p ps (override_one indexed i p ps)
unfolding override_one
override_one-IsPlaced indexed ps i p named fits =
    subst
      (λ b. IsPlaced indexed p ps (
        if b
        then (if ltb i (length ps) then set_at i p ps else ps ++ p ∷ [])
        else place (find_last p.name indexed) p ps))
      (sym (is_named p named)) (placed indexed ps p fits (find_last p.name indexed) refl)

regroup :
    (x : Option Text) (b : Bool) (v : Text) (y : Option Text)
    → or_else x (if b then some v else y) ≡ or_else (or_else x (if b then some v else none)) y
regroup (some u) b v y = refl
regroup none true v y = refl
regroup none false v y = refl

override_from-value_of :
    (indexed : List ParamPair) (i : ℕ) (override ps : List ParamPair)
    → All (λ (p : ParamPair). p.name ≢ []) override
    → IsIndexed indexed ps
    → (n : Text)
    → value_of n (override_from indexed i override ps)
      ≡ or_else (value_of n override) (value_of n ps)
unfolding override_from value_of
override_from-value_of indexed i [] ps named fits n = refl
override_from-value_of indexed i (p ∷ override) ps named fits n =
    let (fits', now) = override_one-IsPlaced indexed ps i p named.0 fits in
    override_from-value_of indexed (suc i) override (override_one indexed i p ps) named.1 fits' n
    ∙ ap (or_else (value_of n override)) (now n)
    ∙ regroup (value_of n override) (text_eq p.name n) p.value (value_of n ps)

-- Where all pairs that override have a name, a name has afterwards the value that the last of them
-- gives it, and else the value that it had.
pub override_params-value_of :
    (ps override : List ParamPair)
    → All (λ (p : ParamPair). p.name ≢ []) override
    → (n : Text)
    → value_of n (override_params ps override) ≡ or_else (value_of n override) (value_of n ps)
unfolding override_params
override_params-value_of ps override named n =
    override_from-value_of ps 0 override ps named (λ m j h. h) n
