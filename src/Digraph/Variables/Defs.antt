-- ===== src/Digraph/Variables/Defs.antt =====
-- `SyncMap.Store`, the `Load` and `Delete` of its `sync.Map`, and the methods of `KeyValue`.
use light_soar.Prelude.{
  ◌==◌, Bool, true, false, Option, none, some, List, [], ◌∷◌, ◌++◌, map, Text, ascii, text_eq,
  if◌then◌else◌, any,
}

abbrev pub SyncMap : Type 0
SyncMap = List (Text × Text)

-- `SyncMap.Store`
unfoldable pub store {ℓ} : {A : Type ℓ} → List (Text × A) → Text → A → List (Text × A)
store [] k v = (k, v) ∷ []
store ((j, w) ∷ m) k v = if text_eq j k then (k, v) ∷ m else (j, w) ∷ store m k v

-- `sync.Map.Load`
unfoldable pub load {ℓ} : {A : Type ℓ} → List (Text × A) → Text → Option A
load [] k = none
load ((j, v) ∷ m) k = if text_eq j k then some v else load m k

-- `sync.Map.Delete`
unfoldable pub delete {ℓ} : {A : Type ℓ} → List (Text × A) → Text → List (Text × A)
delete [] k = []
delete ((j, v) ∷ m) k = if text_eq j k then delete m k else (j, v) ∷ delete m k

-- `NewKeyValue`
unfoldable pub new_key_value : Text → Text → Text
new_key_value key value = key ++ (ascii "=" ++ value)

-- What `strings.SplitN(s, "=", 2)` leaves before the first `=` (all of `s`, if there is none).
unfoldable pub key : Text → Text
key [] = []
key (c ∷ s) = if c == b'=' then [] else c ∷ key s

-- What stands behind the first `=`; nothing, if there is none.
unfoldable pub value : Text → Text
value [] = []
value (c ∷ s) = if c == b'=' then s else value s

-- What `strconv.ParseBool` reads as true. All else is false here, since `KeyValue.Bool` gives
-- false for a text that does not parse.
abbrev pub true_words : List Text
true_words = map ascii ("1" ∷ "t" ∷ "T" ∷ "TRUE" ∷ "true" ∷ "True" ∷ [])

unfoldable pub to_bool : Text → Bool
unfolding value text_eq
to_bool kv = any (text_eq (value kv)) true_words

-- `strconv.FormatBool`
unfoldable pub format_bool : Bool → Text
format_bool true = ascii "true"
format_bool false = ascii "false"
