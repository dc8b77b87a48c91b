-- ===== src/Digraph/Params/Samples.antt =====
-- Parameters of a workflow and of a command line.
use light_soar.Prelude.{◌+◌, false, some, List, [], ◌∷◌, ◌++◌, Text, ascii, text_eq, ◌≡◌, refl}
use light_soar.Digraph.Value.{str, obj, entry, end}
use light_soar.Digraph.Variables.{store}
use light_soar.Digraph.Dag.{zero_dag}
use light_soar.Digraph.Builder.Result.{ok}
use light_soar.Digraph.Params.Defs.{ParamPair, ParamWorld, override_params, unquote}
use light_soar.Digraph.Params.Build.{build_params}
use light_soar.Digraph.Params.Override.{value_of, or_else, override_params-value_of}

program : Unit {0}
unfolding override_params value_of text_eq build_params unquote store
program = tt

abbrev pair : Text → Text → ParamPair
pair name value = record { name = name; value = value }

abbrev defaults : List ParamPair
defaults = pair (ascii "A") (ascii "1") ∷ pair [] (ascii "x") ∷ pair (ascii "B") (ascii "2") ∷ []

abbrev given : List ParamPair
given = pair (ascii "B") (ascii "3") ∷ pair (ascii "C") (ascii "4") ∷ []

overridden :
    override_params defaults given
    ≡ pair (ascii "A") (ascii "1")
      ∷ pair [] (ascii "x")
      ∷ pair (ascii "B") (ascii "3")
      ∷ pair (ascii "C") (ascii "4")
      ∷ []
unfolding program
overridden = refl

-- A positional parameter takes the place of `A`, and the index finds `A` there still.
lost :
    override_params defaults (pair [] (ascii "y") ∷ pair (ascii "A") (ascii "5") ∷ [])
    ≡ pair (ascii "A") (ascii "5") ∷ pair [] (ascii "x") ∷ pair (ascii "B") (ascii "2") ∷ []
unfolding program
lost = refl

override_params-value_of_example :
    value_of (ascii "B") (override_params defaults given)
    ≡ or_else (value_of (ascii "B") given) (value_of (ascii "B") defaults)
override_params-value_of_example =
    override_params-value_of defaults given ((λ h. cc), ((λ h. cc), tt)) (ascii "B")

unquoted : unquote (ascii "\"a \\\"b\"") ≡ ascii "a \"b"
unfolding program
unquoted = refl

-- Each text is one positional parameter.
abbrev world : ParamWorld
world = record {
  matches = λ s. ([], s) ∷ [];
  substitute = λ env s. some s;
  expand = λ env s. s;
  eval_string = λ env s. some s;
  set_env = λ k v env. some (store env k v);
  show = λ v. [];
  quote = λ s. b'"' ∷ s ++ b'"' ∷ [];
  itoa = λ n. (48 + n) ∷ [];
}

built :
    build_params world false []
      (ascii "y" ∷ [])
      []
      (obj (entry (str (ascii "A")) (str (ascii "1")) end))
      zero_dag
    ≡ ok (
      (ascii "1", ascii "y") ∷ (ascii "A", ascii "1") ∷ [],
      record zero_dag {
        default_params = ascii "A=\"1\"";
        params = ascii "y" ∷ [];
        env = ascii "A=1" ∷ [];
      },
    )
unfolding program
built = refl
