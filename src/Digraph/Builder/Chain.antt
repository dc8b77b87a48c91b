-- ===== src/Digraph/Builder/Chain.antt =====
-- That `build` succeeds exactly where its builders do, one after the other.
use light_soar.Prelude.{
  Bool, true, false, not, ◌&&◌, List, [], ◌∷◌, ◌++◌, if◌then◌else◌, Text, ◌≡◌, ◌≢◌, ◌⊎◌, ◌↔◌, inl,
  inr, refl, ap, ◌∙◌,
}
use light_soar.Digraph.Dag.{Dag}
use light_soar.Digraph.Builder.Result.{
  Outside, BuildErr, Result, ok, err, panic, ◌>>=◌, ok_injective,
}
use light_soar.Digraph.Builder.Commands.{assert_functions}
use light_soar.Digraph.Builder.Steps.{Decoder}
use light_soar.Digraph.Builder.Workflow.{Definition, Loading}
use light_soar.Digraph.Builder.Build.{
  BuilderEntry, collect, run_entries, builds, returned, end_build, builders, first_dag, build,
}

-- The builders one after the other, up to the first error.
unfoldable pub chain : (only_metadata : Bool) → List BuilderEntry → Dag → Result Dag
chain only [] dag = ok dag
chain only (e ∷ es) dag = (if not e.metadata && only then ok dag else e.fn dag) >>= chain only es

append-ne : (errs : List BuildErr) (e : BuildErr) → errs ++ e ∷ [] ≢ []
append-ne [] e h = cc
append-ne (x ∷ errs) e h = cc

module _ (only : Bool) where
  abbrev RunsClean : List BuilderEntry → Dag → Type 0
  RunsClean es dag' =
      (dag : Dag) (errs : List BuildErr)
      → run_entries only es (dag, errs) ≡ ok (dag', [])
      → (errs ≡ []) × (chain only es dag ≡ ok dag')

  entry-RunsClean :
      (skip : Bool) (name : Text) (m : Result Dag) (es : List BuilderEntry) (dag dag' : Dag)
      (errs : List BuildErr)
      → RunsClean es dag'
      → ((if skip then ok (dag, errs) else collect name m dag errs) >>= run_entries only es)
        ≡ ok (dag', [])
      → (errs ≡ []) × (((if skip then ok dag else m) >>= chain only es) ≡ ok dag')
  entry-RunsClean true name m es dag dag' errs later h = later dag errs h
  entry-RunsClean false name (ok d) es dag dag' errs later h = later d errs h
  entry-RunsClean false name (err e) es dag dag' errs later h =
      absurd (append-ne errs _ (later dag _ h).0)
  entry-RunsClean false name panic es dag dag' errs later h = absurd (cc)

  run_entries-RunsClean : (es : List BuilderEntry) (dag' : Dag) → RunsClean es dag'
  unfolding run_entries chain
  run_entries-RunsClean [] dag' dag errs h =
      let e = ok_injective h in (ap (λ s. s.1) e, ap (λ s. ok s.0) e)
  run_entries-RunsClean (e ∷ es) dag' dag errs h =
      entry-RunsClean (not e.metadata && only) e.name (e.fn dag) es dag dag' errs
        (run_entries-RunsClean es dag') h

  chained :
      (skip : Bool) (name : Text) (m : Result Dag) (es : List BuilderEntry) (dag dag' : Dag)
      → ((d : Dag) → chain only es d ≡ ok dag' → run_entries only es (d, []) ≡ ok (dag', []))
      → ((if skip then ok dag else m) >>= chain only es) ≡ ok dag'
      → ((if skip then ok (dag, []) else collect name m dag []) >>= run_entries only es)
        ≡ ok (dag', [])
  chained true name m es dag dag' later h = later dag h
  chained false name (ok d) es dag dag' later h = later d h
  chained false name (err e) es dag dag' later h = absurd (cc)
  chained false name panic es dag dag' later h = absurd (cc)

  run_entries-chain :
      (es : List BuilderEntry) (dag' dag : Dag)
      → chain only es dag ≡ ok dag'
      → run_entries only es (dag, []) ≡ ok (dag', [])
  unfolding run_entries chain
  run_entries-chain [] dag' dag h = ap (λ d. ok (d, [])) (ok_injective h)
  run_entries-chain (e ∷ es) dag' dag h =
      chained (not e.metadata && only) e.name (e.fn dag) es dag dag' (run_entries-chain es dag') h

abbrev ran : Dag → List BuildErr → Result (Dag × List BuildErr)
ran dag errs = ok (dag, errs)

returned-builds :
    (d dag : Dag) (errs : List BuildErr) → returned d errs ≡ builds dag → ran d errs ≡ ran dag []
returned-builds d dag [] h = cc
returned-builds d dag (e ∷ errs) h = absurd (cc)

abbrev Returned : (only : Bool) → Result (Unit {0}) → Result (Dag × List BuildErr) → Dag → Type 0
Returned only functions m dag = (m ≡ ok (dag, [])) × ((only ≡ true) ⊎ (functions ≡ ok tt))

end_build-builds :
    (only : Bool) (functions : Result (Unit {0})) (m : Result (Dag × List BuildErr)) (dag : Dag)
    → end_build only functions m ≡ builds dag
    → Returned only functions m dag
end_build-builds true functions (ok (d, errs)) dag h = (returned-builds d dag errs h, inl refl)
end_build-builds false (ok u) (ok (d, errs)) dag h = (returned-builds d dag errs h, inr refl)
end_build-builds false (err e) (ok (d, [])) dag h = absurd (cc)
end_build-builds false (err e) (ok (d, x ∷ errs)) dag h = absurd (cc)
end_build-builds false panic (ok (d, errs)) dag h = absurd (cc)
end_build-builds only functions (err e) dag h = absurd (cc)
end_build-builds only functions panic dag h = absurd (cc)

builds-end_build :
    (only : Bool) (functions : Result (Unit {0})) (dag : Dag)
    → (only ≡ true) ⊎ (functions ≡ ok tt)
    → end_build only functions (ok (dag, [])) ≡ builds dag
builds-end_build true functions dag h = refl
builds-end_build false (ok u) dag h = refl
builds-end_build false (err e) dag (inl h) = absurd (cc)
builds-end_build false (err e) dag (inr h) = absurd (cc)
builds-end_build false panic dag (inl h) = absurd (cc)
builds-end_build false panic dag (inr h) = absurd (cc)

-- `build` returns a workflow exactly where the builders, run one after the other up to the first error,
-- give this workflow, and the functions are accepted or only the metadata is asked for.
pub build-chain :
    (out : Outside) (world : Loading) (dec : Decoder) (no_eval only : Bool) (file : Text)
    (d : Definition) (dag : Dag)
    → (build out world dec no_eval only file d ≡ builds dag) ↔ (
        (chain only (builders out world dec no_eval d) (first_dag out world dec no_eval file d)
          ≡ ok dag)
        × ((only ≡ true) ⊎ (assert_functions [] d.functions ≡ ok tt)))
unfolding build
build-chain out world dec no_eval only file d dag =
    let start = first_dag out world dec no_eval file d in
    let es = builders out world dec no_eval d in
    (
      λ h.
          let (run, functions) =
            end_build-builds only (assert_functions [] d.functions)
              (run_entries only es (start, [])) dag h in
          ((run_entries-RunsClean only es dag start [] run).1, functions),
      λ p.
          ap (end_build only (assert_functions [] d.functions))
            (run_entries-chain only es dag start p.0)
          ∙ builds-end_build only (assert_functions [] d.functions) dag p.1,
    )
