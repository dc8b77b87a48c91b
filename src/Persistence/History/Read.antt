-- ===== src/Persistence/History/Read.antt =====
-- The methods of `JSONDB` (internal/persistence/jsondb/jsondb.go) that read statuses through the cache.
use light_soar.Prelude.{
  ℕ, ◌-◌, ◌%◌, length, ltb, ℤ, pos, Bool, ◌&&◌, Option, none, some, List, [], ◌∷◌, ◌++◌, Text,
  ascii, if◌then◌else◌,
}
use light_soar.Digraph.Variables.{load}
use light_soar.Persistence.Cache.Defs.{
  Cache, FileInfo, Answer, cannot_stat, cannot_load, panics, load_latest,
}
use light_soar.Persistence.Record.Defs.{RunRecord}
use light_soar.Persistence.History.Files.{
  Outside, HistoryError, Attempt, gives, fails, Disk, File, file_at,
}
use light_soar.Persistence.History.Writer.{parse_status_file}
use light_soar.Persistence.History.Defs.{
  JsonDb, StatusFile, create_prefix, glob_pattern, glob, find_timestamp, filter_latest,
}

module _ (outside : Outside) where
  abbrev cached :
      Attempt RunRecord → Cache RunRecord × Answer RunRecord → Cache RunRecord × Attempt RunRecord
  cached direct (c, Answer.gives st) = (c, gives st)
  cached direct (c, cannot_stat) = (c, fails HistoryError.no_such_file)
  cached direct (c, cannot_load) = (c, direct)
  cached direct (c, panics) = (c, fails HistoryError.assertion_fails)

  abbrev info_of : Option File → Option FileInfo
  info_of none = none
  info_of (some f) = some (record { size = length f.content; mod_time = f.mod_time })

  abbrev loaded : Attempt RunRecord → Option RunRecord
  loaded (fails e) = none
  loaded (gives st) = some st

  -- `parseStatusFile`
  unfoldable pub parse_cached :
      (now minutes : ℕ) → Text → JsonDb → Disk → JsonDb × Attempt RunRecord
  unfolding parse_status_file load_latest load
  parse_cached now minutes file db disk = go db.file_cache
    where
      direct : Attempt RunRecord
      direct = parse_status_file outside file disk

      go : Option (Cache RunRecord) → JsonDb × Attempt RunRecord
      go none = (db, direct)
      go (some c) =
          let (c', o) = cached direct (
            load_latest now minutes file (info_of (file_at disk file)) (loaded direct)
              (outside.sweeps file) c) in
          (record db { file_cache = some c' }, o)

  unfoldable pub read_each :
      (now minutes : ℕ) → List Text → JsonDb → Disk → JsonDb × List StatusFile
  unfolding parse_cached
  read_each now minutes [] db disk = (db, [])
  read_each now minutes (m ∷ ms) db disk =
      let (db', o) = parse_cached now minutes m db disk in
      let (db'', rest) = read_each now minutes ms db' disk in (db'', add_read m o rest)
    where
      add_read : Text → Attempt RunRecord → List StatusFile → List StatusFile
      add_read file (fails e) rest = rest
      add_read file (gives st) rest = record { file = file; status = st } ∷ rest

  -- `getLatestMatches`
  unfoldable pub get_latest_matches : Text → ℤ → Disk → Option (List Text)
  unfolding glob filter_latest
  get_latest_matches pattern limit disk = go (glob outside pattern disk)
    where
      go : Attempt (List Text) → Option (List Text)
      go (fails e) = some []
      go (gives files) = filter_latest outside files limit

  -- `ReadStatusRecent`
  unfoldable pub read_status_recent :
      (now minutes : ℕ) → JsonDb → Text → ℤ → Disk → Option (JsonDb × List StatusFile)
  unfolding get_latest_matches parse_cached glob_pattern
  read_status_recent now minutes db key limit disk =
      go (get_latest_matches (glob_pattern outside db key) limit disk)
    where
      go : Option (List Text) → Option (JsonDb × List StatusFile)
      go none = none
      go (some files) = some (read_each now minutes files db disk)

  -- What `latestToday` does with the latest file: the day begins at midnight in UTC.
  unfoldable pub today_or : (day : ℕ) → Bool → Option (List Text) → Attempt Text
  unfolding find_timestamp
  today_or day today none = fails HistoryError.no_status_data
  today_or day today (some []) = fails HistoryError.no_status_data
  today_or day today (some (file ∷ files)) =
      if today && ltb (find_timestamp outside file) (day - day % 86_400_000_000_000)
      then fails HistoryError.no_status_data_today
      else gives file

  -- `latestToday`
  unfoldable pub latest_today : (day : ℕ) → JsonDb → Text → Bool → Disk → Attempt Text
  unfolding glob create_prefix filter_latest find_timestamp
  latest_today day db key today disk =
      go (glob outside (create_prefix outside db key ++ ascii ".*.*.dat") disk)
    where
      go : Attempt (List Text) → Attempt Text
      go (fails e) = fails HistoryError.no_status_data_today
      go (gives []) = fails HistoryError.no_status_data_today
      go (gives (file ∷ files)) = today_or day today (filter_latest outside (file ∷ files) (pos 1))

  -- `ReadStatusToday`
  unfoldable pub read_status_today :
      (now minutes : ℕ) → JsonDb → Text → Disk → JsonDb × Attempt RunRecord
  unfolding latest_today parse_cached
  read_status_today now minutes db key disk =
      go (latest_today now db key db.latest_status_today disk)
    where
      go : Attempt Text → JsonDb × Attempt RunRecord
      go (fails e) = (db, fails e)
      go (gives file) = parse_cached now minutes file db disk
