-- ===== src/Digraph/Builder/Collected.antt =====
-- That `build` (internal/digraph/builder.go) goes on behind an error of a builder.
use mathlib.Core.List.{append_assoc, append-nil}
use light_soar.Prelude.{
  Bool, true, false, not, ◌&&◌, List, [], ◌∷◌, ◌++◌, if◌then◌else◌, Text, ◌≡◌, ◌⊎◌, inl, inr, refl,
  sym, ap, ◌∙◌, subst,
}
use light_soar.Digraph.Value.{null}
use light_soar.Digraph.Dag.{Dag}
use light_soar.Digraph.Builder.Result.{Outside, BuildErr, wrapped, Result, ok, err, panic, ◌>>=◌}
use light_soar.Digraph.Builder.Commands.{assert_functions}
use light_soar.Digraph.Builder.Steps.{Decoder}
use light_soar.Digraph.Builder.Workflow.{Definition, Loading}
use light_soar.Digraph.Builder.Build.{
  BuilderEntry, collect, run_entries, Build, fails, panics, returned, end_build, builders,
  first_dag, build,
}

-- A panic, or a workflow with these errors and later ones.
abbrev Grows : List BuildErr → Result (Dag × List BuildErr) → Type 0
Grows errs m = (m ≡ panic) ⊎ ((dag : Dag) × (later : List BuildErr) × (m ≡ ok (dag, errs ++ later)))

-- A panic, or errors that begin with these.
abbrev pub FailsWith : List BuildErr → Build → Type 0
FailsWith errs b = (b ≡ panics) ⊎ ((later : List BuildErr) × (b ≡ fails (errs ++ later)))

module _ (only : Bool) where
  entry-Grows :
      (skip : Bool) (name : Text) (m : Result Dag) (es : List BuilderEntry) (dag : Dag)
      (errs : List BuildErr)
      → ((d : Dag) (errs : List BuildErr) → Grows errs (run_entries only es (d, errs)))
      → Grows errs
          ((if skip then ok (dag, errs) else collect name m dag errs) >>= run_entries only es)
  entry-Grows true name m es dag errs rest = rest dag errs
  entry-Grows false name (ok d) es dag errs rest = rest d errs
  entry-Grows false name panic es dag errs rest = inl refl
  entry-Grows false name (err x) es dag errs rest =
      elim (rest dag (errs ++ wrapped name null x ∷ [])) [
        | inl p ↦ inl p
        | inr (d, later, e) ↦ inr (
          d,
          wrapped name null x ∷ later,
          e ∙ ap (λ xs. ok (d, xs)) (append_assoc errs (wrapped name null x ∷ []) later),
        )
      ]

  run_entries-Grows :
      (es : List BuilderEntry) (dag : Dag) (errs : List BuildErr)
      → Grows errs (run_entries only es (dag, errs))
  unfolding run_entries
  run_entries-Grows [] dag errs = inr (dag, [], ap (λ xs. ok (dag, xs)) (sym (append-nil errs)))
  run_entries-Grows (e ∷ es) dag errs =
      entry-Grows (not e.metadata && only) e.name (e.fn dag) es dag errs (run_entries-Grows es)

  run_entries-append :
      (pre post : List BuilderEntry) (s : Dag × List BuildErr) (m : Result (Dag × List BuildErr))
      → run_entries only pre s ≡ m
      → run_entries only (pre ++ post) s ≡ (m >>= run_entries only post)
  unfolding run_entries
  run_entries-append [] post s m h = ap (λ x. x >>= run_entries only post) h
  run_entries-append (e ∷ pre) post (dag, errs) m h =
      go (λ s. run_entries-append pre post s m)
        (if not e.metadata && only then ok (dag, errs) else collect e.name (e.fn dag) dag errs) h
    where
      go :
          ((s : Dag × List BuildErr)
            → run_entries only pre s ≡ m
            → run_entries only (pre ++ post) s ≡ (m >>= run_entries only post))
          → (x : Result (Dag × List BuildErr)) → (x >>= run_entries only pre) ≡ m
          → (x >>= run_entries only (pre ++ post)) ≡ (m >>= run_entries only post)
      go later (ok s) k = later s k
      go later (err y) k = ap (λ x. x >>= run_entries only post) k
      go later panic k = ap (λ x. x >>= run_entries only post) k

returned-fails :
    (dag : Dag) (errs : List BuildErr) (x : BuildErr) (later : List BuildErr)
    → returned dag ((errs ++ x ∷ []) ++ later) ≡ fails ((errs ++ x ∷ []) ++ later)
returned-fails dag [] x later = refl
returned-fails dag (y ∷ errs) x later = refl

end_build-FailsWith :
    (only : Bool) (functions : Result (Unit {0})) (errs : List BuildErr) (x : BuildErr)
    (m : Result (Dag × List BuildErr))
    → Grows (errs ++ x ∷ []) m
    → FailsWith (errs ++ x ∷ []) (end_build only functions m)
end_build-FailsWith true functions errs x m (inl p) = inl (ap (end_build true functions) p)
end_build-FailsWith false functions errs x m (inl p) = inl (ap (end_build false functions) p)
end_build-FailsWith true functions errs x m (inr (dag, later, e)) =
    inr (later, ap (end_build true functions) e ∙ returned-fails dag errs x later)
end_build-FailsWith false (ok u) errs x m (inr (dag, later, e)) =
    inr (later, ap (end_build false (ok u)) e ∙ returned-fails dag errs x later)
end_build-FailsWith false (err f) errs x m (inr (dag, later, e)) = inr (
  later ++ f ∷ [],
  ap (end_build false (err f)) e
      ∙ ap (returned dag) (append_assoc (errs ++ x ∷ []) later (f ∷ []))
      ∙ returned-fails dag errs x (later ++ f ∷ []),
)
end_build-FailsWith false panic errs x m (inr (dag, later, e)) = inl (ap (end_build false panic) e)

-- A builder that fails, behind others that may have failed too.
failed_entry :
    (only : Bool) (e : BuilderEntry) (post : List BuilderEntry) (dag : Dag) (errs : List BuildErr)
    (x : BuildErr)
    → (e.metadata ≡ true) ⊎ (only ≡ false)
    → e.fn dag ≡ err x
    → Grows (errs ++ wrapped e.name null x ∷ []) (run_entries only (e ∷ post) (dag, errs))
unfolding run_entries
failed_entry only e post dag errs x runs fails_so =
    go (not e.metadata && only)
      (elim runs [
        | inl always ↦ ap (λ b. not b && only) always
        | inr full ↦ ap (λ b. not e.metadata && b) full ∙ and_false (not e.metadata)
      ])
      (e.fn dag) fails_so
  where
    and_false : (b : Bool) → b && false ≡ false
    and_false true = refl
    and_false false = refl

    go :
        (skip : Bool)
        → skip ≡ false
        → (m : Result Dag) → m ≡ err x
        → Grows
            (errs ++ wrapped e.name null x ∷ [])
            ((if skip then ok (dag, errs) else collect e.name m dag errs) >>= run_entries only post)
    go true h m k = absurd (cc)
    go false h panic k = absurd (cc)
    go false h (ok d) k = absurd (cc)
    go false h (err y) k =
        subst
          (λ (n : Result Dag).
            Grows (errs ++ wrapped e.name null x ∷ [])
              (collect e.name n dag errs >>= run_entries only post))
          (sym k) (run_entries-Grows only post dag (errs ++ wrapped e.name null x ∷ []))

-- `build` goes on behind the error of a builder: where the builders before one give a workflow and
-- some errors, and this one is run and fails on that workflow, `build` panics, or it fails with those
-- errors, then the error of this builder under its name, and then any later ones.
pub build_collects :
    (out : Outside) (world : Loading) (dec : Decoder) (no_eval only : Bool) (file : Text)
    (d : Definition) (pre : List BuilderEntry) (e : BuilderEntry) (post : List BuilderEntry)
    (dag : Dag) (errs : List BuildErr) (x : BuildErr)
    → builders out world dec no_eval d ≡ pre ++ e ∷ post
    → run_entries only pre (first_dag out world dec no_eval file d, []) ≡ ok (dag, errs)
    → (e.metadata ≡ true) ⊎ (only ≡ false)
    → e.fn dag ≡ err x
    → FailsWith (errs ++ wrapped e.name null x ∷ []) (build out world dec no_eval only file d)
unfolding build
build_collects out world dec no_eval only file d pre e post dag errs x split before runs fails_so =
    let start = first_dag out world dec no_eval file d in
    let all = run_entries-append only pre (e ∷ post) (start, []) (ok (dag, errs)) before in
    end_build-FailsWith only (assert_functions [] d.functions) errs (wrapped e.name null x)
      (run_entries only (builders out world dec no_eval d) (start, []))
      (subst (Grows (errs ++ wrapped e.name null x ∷ []))
        (sym (ap (λ es. run_entries only es (start, [])) split ∙ all))
        (failed_entry only e post dag errs x runs fails_so))
