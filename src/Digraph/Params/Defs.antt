-- ===== src/Digraph/Params/Defs.antt =====
-- `buildParams`, with the parsing of parameters and their overriding. The environment of the process
-- is a list of variables.
use light_soar.Prelude.{
  ℕ, zero, suc, ltb, ◌==◌, Bool, true, false, Option, none, some, List, [], ◌∷◌, ◌++◌, length, any,
  if◌then◌else◌, Text, ascii, text_eq,
}
use light_soar.Command.Defs.{join, split_from, has_prefix}
use light_soar.Digraph.Value.{Value, null, str, arr, obj, Values, nil, cons, Entries, end, entry}
use light_soar.Digraph.Builder.Result.{
  BuildErr, wrapped, Result, ok, err, ◌>>=◌, or_error, invalid_param_value,
}

-- `paramPair`
pub record ParamPair : Type 0 where
  pub name : Text
  pub value : Text

abbrev pub Env : Type 0
Env = List (Text × Text)

-- The groups of the matches of `paramRegex`, the substitution of backticks, `os.ExpandEnv`,
-- `EvalString`, `os.Setenv`, the formats `%v` and `%q`, and `strconv.Itoa`.
pub record ParamWorld : Type 0 where
  pub matches : Text → List (Text × Text)
  pub substitute : Env → Text → Option Text
  pub expand : Env → Text → Text
  pub eval_string : Env → Text → Option Text
  pub set_env : Text → Text → Env → Option Env
  pub show : Value → Text
  pub quote : Text → Text
  pub itoa : ℕ → Text

-- `paramPair.String`
unfoldable pub pair_text : ParamPair → Text
unfolding text_eq
pair_text p = if text_eq p.name [] then p.value else p.name ++ b'=' ∷ p.value

-- The index that `overrideParams` makes: the last pair with a name.
abbrev pub found_at : Option ℕ → Bool → Option ℕ
found_at (some j) here = some (suc j)
found_at none true = some 0
found_at none false = none

unfoldable pub find_last : Text → List ParamPair → Option ℕ
unfolding text_eq
find_last name [] = none
find_last name (p ∷ ps) = found_at (find_last name ps) (text_eq p.name name)

unfoldable pub set_at : ℕ → ParamPair → List ParamPair → List ParamPair
set_at j p [] = []
set_at zero p (q ∷ qs) = p ∷ qs
set_at (suc j) p (q ∷ qs) = q ∷ set_at j p qs

unfoldable pub place : Option ℕ → ParamPair → List ParamPair → List ParamPair
unfolding set_at
place (some j) p pairs = set_at j p pairs
place none p pairs = pairs ++ p ∷ []

-- The loop's body of `overrideParams`, for the pairs that the index was made of.
unfoldable pub override_one : List ParamPair → ℕ → ParamPair → List ParamPair → List ParamPair
unfolding set_at find_last text_eq place
override_one indexed i p pairs =
    if text_eq p.name []
    then (if ltb i (length pairs) then set_at i p pairs else pairs ++ p ∷ [])
    else place (find_last p.name indexed) p pairs

unfoldable pub override_from : List ParamPair → ℕ → List ParamPair → List ParamPair → List ParamPair
unfolding override_one
override_from indexed i [] pairs = pairs
override_from indexed i (p ∷ override) pairs =
    override_from indexed (suc i) override (override_one indexed i p pairs)

-- `overrideParams`
unfoldable pub override_params : List ParamPair → (override : List ParamPair) → List ParamPair
unfolding override_from
override_params pairs override = override_from pairs 0 override pairs

-- `overrideEnvirons`: an equal text takes the place of itself.
unfoldable pub override_environs : List Text → List Text → List Text → List Text
unfolding text_eq
override_environs indexed [] envs = envs
override_environs indexed (e ∷ override) envs =
    override_environs indexed override
      (if any (λ x. text_eq x e) indexed then envs else envs ++ e ∷ [])

abbrev pub in_params : Value → BuildErr
in_params v = wrapped (ascii "params") v invalid_param_value

-- `strings.Trim(s, "\"")`
abbrev trim_left : Text → Text
trim_left [] = []
trim_left (c ∷ s) = elim (c == b'"') [ true ↦ trim_left s | false ↦ c ∷ s ]

abbrev add_unless_quote : ℕ → Text → Text
add_unless_quote c [] = if c == b'"' then [] else c ∷ []
add_unless_quote c (d ∷ s) = c ∷ d ∷ s

abbrev trim_right : Text → Text
trim_right [] = []
trim_right (c ∷ s) = add_unless_quote c (trim_right s)

-- A quoted value without its quotes.
unfoldable pub unquote : Text → Text
unfolding join split_from has_prefix
unquote s = join (ascii "\"") (split_from (ascii "\\\"") 0 [] (trim_right (trim_left s)))

unfoldable pub starts_with : ℕ → Text → Bool
starts_with r [] = false
starts_with r (c ∷ s) = c == r

module _ (w : ParamWorld) (no_eval : Bool) where
  abbrev substituted : Env → Text → Result Text
  substituted env v = if no_eval then ok v else or_error (w.substitute env v) (in_params (str v))

  -- The value of a match in `parseStringParams`.
  unfoldable pub match_value : Env → Text → Result Text
  unfolding unquote starts_with
  match_value env v =
      if starts_with b'"' v
      then substituted env (unquote v)
      else if starts_with b'`' v
      then substituted env v
      else ok v

  unfoldable pub match_pairs : Env → List (Text × Text) → Result (List ParamPair)
  unfolding match_value
  match_pairs env [] = ok []
  match_pairs env ((name, v) ∷ ms) = do
    value ← match_value env v
    pairs ← match_pairs env ms
    ok (record { name = name; value = value } ∷ pairs)

  -- `parseStringParams`
  unfoldable pub parse_string_params : Env → Text → Result (List ParamPair)
  unfolding match_pairs
  parse_string_params env s = match_pairs env (w.matches s)

  -- `parseListParams`
  unfoldable pub parse_list_params : Env → List Text → Result (List ParamPair)
  unfolding parse_string_params
  parse_list_params env [] = ok []
  parse_list_params env (s ∷ ss) = do
    pairs ← parse_string_params env s
    more ← parse_list_params env ss
    ok (pairs ++ more)

  abbrev text_of : Value → Text
  text_of (str s) = s
  text_of v = w.show v

  abbrev evaluated : Env → Text → Result Text
  evaluated env v = if no_eval then ok v else or_error (w.eval_string env v) (in_params (str v))

  unfoldable pub entry_params : Env → Entries → Result (List ParamPair)
  entry_params env end = ok []
  entry_params env (entry (str name) v es) = do
    value ← evaluated env (text_of v)
    pairs ← entry_params env es
    ok (record { name = name; value = value } ∷ pairs)
  entry_params env (entry name v es) = err (in_params name)

  -- `parseMapParams`
  unfoldable pub parse_map_params : Env → Values → Result (List ParamPair)
  unfolding parse_string_params entry_params
  parse_map_params env nil = ok []
  parse_map_params env (cons (str s) vs) = do
    pairs ← parse_string_params env s
    more ← parse_map_params env vs
    ok (pairs ++ more)
  parse_map_params env (cons (obj es) vs) = do
    pairs ← entry_params env es
    more ← parse_map_params env vs
    ok (pairs ++ more)
  parse_map_params env (cons v vs) = err (in_params v)

  -- `parseParamValue`, for a value of the workflow file.
  unfoldable pub parse_param_value : Env → Value → Result (List ParamPair)
  unfolding parse_string_params parse_map_params
  parse_param_value env null = ok []
  parse_param_value env (str s) = parse_string_params env s
  parse_param_value env (arr vs) = parse_map_params env vs
  parse_param_value env (obj es) = parse_map_params env (cons (obj es) nil)
  parse_param_value env v = err (in_params v)
