-- ===== src/Digraph/Params/Build.antt =====
-- `parseParams` and `buildParams`.
use light_soar.Prelude.{
  ℕ, suc, Bool, not, ◌&&◌, List, [], ◌∷◌, ◌++◌, map, if◌then◌else◌, Text, ascii, text_eq,
}
use light_soar.Command.Defs.{join}
use light_soar.Digraph.Value.{Value, str, arr, Values, nil, cons}
use light_soar.Digraph.Dag.{Dag}
use light_soar.Digraph.Builder.Result.{
  wrapped, Result, ok, err, panic, ◌>>=◌, or_error, failed_to_set_env,
}
use light_soar.Digraph.Params.Defs.{
  ParamPair, Env, ParamWorld, pair_text, override_params, override_environs, in_params,
  parse_list_params, parse_param_value,
}

-- The environment of the process with the parameters and the variables that were read.
pub record Read : Type 0 where
  pub env : Env
  pub pairs : List ParamPair
  pub envs : List Text

-- `paramPair.Escaped`
unfoldable pub escaped : ParamWorld → ParamPair → Text
unfolding text_eq
escaped w p = if text_eq p.name [] then w.quote p.value else p.name ++ b'=' ∷ w.quote p.value

abbrev reread : Value → Result (List ParamPair) → Result (List ParamPair)
reread v (ok pairs) = ok pairs
reread v (err e) = err (in_params v)
reread v panic = panic

abbrev texts : List Text → Values
texts [] = nil
texts (s ∷ ss) = cons (str s) (texts ss)

module _ (w : ParamWorld) (no_eval : Bool) where
  abbrev set_env : Text → Text → Text → Env → Result Env
  set_env shown k v env =
      or_error (w.set_env k v env) (wrapped (ascii "params") (str shown) failed_to_set_env)

  abbrev named_env : ParamPair → Read → Result Read
  named_env p r =
      if not no_eval && not (text_eq p.name [])
      then (set_env (pair_text p) p.name p.value r.env >>= λ env.
          ok (record r { env = env; envs = r.envs ++ pair_text p ∷ [] }))
      else ok r

  -- The loop's body of `parseParams`.
  unfoldable pub read_one : ℕ → ParamPair → Read → Result Read
  unfolding pair_text text_eq
  read_one i p r = do
    let q = record p { value = if no_eval then p.value else w.expand r.env p.value }
    env ← set_env (pair_text q) (w.itoa (suc i)) (pair_text q) r.env
    named_env q (record r { env = env; pairs = r.pairs ++ q ∷ [] })

  unfoldable pub read_all : ℕ → List ParamPair → Read → Result Read
  unfolding read_one
  read_all i [] r = ok r
  read_all i (p ∷ ps) r = read_one i p r >>= read_all (suc i) ps

  -- `parseParams`, for a value that `parse` reads.
  unfoldable pub parse_params : Value → (parse : Env → Result (List ParamPair)) → Env → Result Read
  unfolding read_all
  parse_params v parse env = reread v (parse env) >>= λ pairs.
      read_all 0 pairs (record { env = env; pairs = []; envs = [] })

  -- The parameters of a command line over those that were read.
  unfoldable pub override : Value → (Env → Result (List ParamPair)) → Read → Result Read
  unfolding parse_params override_params override_environs
  override v parse r = parse_params v parse r.env >>= λ o. ok (record {
    env = o.env;
    pairs = override_params r.pairs o.pairs;
    envs = override_environs r.envs o.envs r.envs;
  })

  abbrev with_text : Text → Read → Result Read
  unfolding override parse_param_value
  with_text [] r = ok r
  with_text (c ∷ s) r =
      override (str (c ∷ s)) (λ env. parse_param_value w no_eval env (str (c ∷ s))) r

  abbrev with_list : List Text → Read → Result Read
  unfolding override parse_list_params
  with_list [] r = ok r
  with_list (s ∷ ss) r =
      override (arr (texts (s ∷ ss))) (λ env. parse_list_params w no_eval env (s ∷ ss)) r

  -- `buildParams`, with the options `Parameters` and `ParametersList`, and the environment as it is
  -- left.
  unfoldable pub build_params :
      (parameters : Text) → (parameters_list : List Text) → Env → Value → Dag → Result (Env × Dag)
  unfolding parse_params parse_param_value with_text with_list escaped pair_text join
  build_params parameters parameters_list env v dag = do
    read ← parse_params v (λ env. parse_param_value w no_eval env v) env
    first ← with_text parameters read
    last ← with_list parameters_list first
    ok (
      last.env,
      record dag {
        default_params = join (ascii " ") (map (escaped w) read.pairs);
        params = dag.params ++ map pair_text last.pairs;
        env = dag.env ++ last.envs;
      },
    )
