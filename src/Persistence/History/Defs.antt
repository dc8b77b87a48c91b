-- ===== src/Persistence/History/Defs.antt =====
-- `JSONDB`, and how its files are named, found and ordered (internal/persistence/jsondb/jsondb.go). A
-- time is its nanoseconds since the Unix epoch; the times of the clock and the random numbers of the
-- cache are arguments.
use light_soar.Prelude.{
  ℕ, zero, suc, ◌==◌, ltb, ℤ, pos, negsuc, Bool, true, false, not, ◌&&◌, ◌||◌, Option, none, some,
  List, [], ◌∷◌, ◌++◌, any, length, Text, ascii, text_eq, if◌then◌else◌,
}
use light_soar.Command.Defs.{has_prefix}
use light_soar.Persistence.Cache.Defs.{Cache}
use light_soar.Persistence.Record.Defs.{RunRecord}
use light_soar.Persistence.History.Files.{
  Outside, HistoryError, Attempt, gives, fails, Disk, File, take_text, drop_text, trim_suffix,
  is_yaml_file,
}
use light_soar.Persistence.History.Writer.{Writer}

-- `JSONDB`
pub record JsonDb : Type 0 where
  pub base_dir : Text
  pub latest_status_today : Bool
  pub file_cache : Option (Cache RunRecord)
  pub writer : Option Writer

-- `StatusFile`
pub record StatusFile : Type 0 where
  pub file : Text
  pub status : RunRecord

-- `New`, with what the options leave
unfoldable pub new_json_db : Text → Option (Cache RunRecord) → Bool → JsonDb
new_json_db base_dir cache today = record {
  base_dir = base_dir;
  latest_status_today = today;
  file_cache = cache;
  writer = none;
}

-- The order of Go's texts: by their bytes.
unfoldable pub text_lt : Text → Text → Bool
text_lt s [] = false
text_lt [] (d ∷ t) = true
text_lt (c ∷ s) (d ∷ t) = ltb c d || c == d && text_lt s t

unfoldable pub insert_by : (Text → Text → Bool) → Text → List Text → List Text
insert_by before x [] = x ∷ []
insert_by before x (y ∷ ys) = if before y x then y ∷ insert_by before x ys else x ∷ y ∷ ys

-- What `sort.Slice` may leave: the order of elements of which none is before the other is open.
unfoldable pub sort_by : (Text → Text → Bool) → List Text → List Text
unfolding insert_by
sort_by before [] = []
sort_by before (x ∷ xs) = insert_by before x (sort_by before xs)

-- `strings.Replace` of the first place
unfoldable pub replace_first : (old new : Text) → Text → Text
unfolding has_prefix drop_text text_eq
replace_first old new [] = if text_eq old [] then new else []
replace_first old new (c ∷ s) =
    if has_prefix old (c ∷ s)
    then new ++ drop_text (length old) (c ∷ s)
    else c ∷ replace_first old new s

abbrev pub names_of : List (Text × File) → List Text
names_of [] = []
names_of ((name, f) ∷ files) = name ∷ names_of files

abbrev pub select : (Text → Bool) → List Text → List Text
select test [] = []
select test (x ∷ xs) = if test x then x ∷ select test xs else select test xs

unfoldable pub take_names : ℕ → List Text → List Text
take_names zero names = []
take_names (suc n) [] = []
take_names (suc n) (x ∷ names) = x ∷ take_names n names

abbrev or_zero : Option ℕ → ℕ
or_zero none = 0
or_zero (some t) = t

module _ (outside : Outside) where
  -- `getPrefix`
  unfoldable pub get_prefix : Text → Text
  unfolding text_eq is_yaml_file trim_suffix
  get_prefix key =
      if text_eq (outside.ext key) []
      then outside.base key
      else if is_yaml_file outside key
      then trim_suffix (outside.ext key) (outside.base key)
      else outside.base key

  -- `getDirectory`
  unfoldable pub get_directory : JsonDb → Text → Text → Text
  unfolding text_eq
  get_directory db key prefix =
      if not (text_eq key prefix)
      then outside.join_path db.base_dir (prefix ++ (ascii "-" ++ outside.md5_hex key))
      else outside.join_path db.base_dir key

  -- `createPrefix`
  unfoldable pub create_prefix : JsonDb → Text → Text
  unfolding get_prefix get_directory
  create_prefix db key =
      let prefix = get_prefix key in outside.join_path (get_directory db key prefix) prefix

  -- `globPattern`
  unfoldable pub glob_pattern : JsonDb → Text → Text
  unfolding create_prefix
  glob_pattern db key = create_prefix db key ++ ascii "*.dat"

  -- `filepath.Glob`
  unfoldable pub glob : Text → Disk → Attempt (List Text)
  glob pattern disk =
      if outside.is_bad_pattern pattern
      then fails HistoryError.bad_pattern
      else gives (select (outside.matches pattern) (names_of disk.files))

  -- `generateFilePath`
  unfoldable pub generate_file_path : JsonDb → Text → (timestamp : ℕ) → Text → Attempt Text
  unfolding text_eq create_prefix take_text
  generate_file_path db key timestamp request_id =
      if text_eq key []
      then fails HistoryError.key_empty
      else gives (
          create_prefix db key
          ++ (ascii "."
              ++ (outside.format_utc timestamp
                  ++ (ascii "." ++ (take_text 8 request_id ++ ascii ".dat")))))

  -- `findTimestamp`, which gives the zero time where the text of a time does not parse.
  unfoldable pub find_timestamp : Text → ℕ
  find_timestamp file =
      let text = outside.find_timestamp_text file in
      if not (any (λ c. c == b'Z') text)
      then or_zero (outside.parse_old_format text)
      else or_zero (outside.parse_utc text)

  unfoldable pub is_after : Text → Text → Bool
  unfolding find_timestamp
  is_after a b = ltb (find_timestamp b) (find_timestamp a)

  -- `filterLatest`: a slice to a bound below 0 is a panic.
  unfoldable pub filter_latest : List Text → ℤ → Option (List Text)
  unfolding sort_by is_after take_names
  filter_latest [] limit = some []
  filter_latest (f ∷ files) (negsuc n) = none
  filter_latest (f ∷ files) (pos n) = some (take_names n (sort_by is_after (f ∷ files)))
