-- ===== src/Persistence/History/Store.antt =====
-- The methods of `JSONDB` (internal/persistence/jsondb/jsondb.go) that find, write and remove the
-- files of the runs.
use light_soar.Prelude.{
  ℕ, ltb, ℤ, pos, negsuc, Bool, false, Option, none, some, List, [], ◌∷◌, ◌++◌, Text, ascii,
  text_eq, if◌then◌else◌,
}
use light_soar.Digraph.Variables.{load}
use light_soar.Persistence.Cache.Defs.{Cache, invalidate}
use light_soar.Persistence.Record.Defs.{RunRecord}
use light_soar.Persistence.History.Files.{
  Outside, HistoryError, about, about_error, Attempt, gives, fails, Disk, File, trim_suffix,
  file_at, remove, rename,
}
use light_soar.Persistence.History.Writer.{
  Writer, new_writer, open_writer, write, parse_status_file,
}
use light_soar.Persistence.History.Defs.{
  JsonDb, StatusFile, text_lt, sort_by, glob_pattern, glob, generate_file_path,
}

-- The error of a part becomes one about `name`.
unfoldable pub about_file : Text → Disk × Option HistoryError → Disk × Option HistoryError
about_file name (disk, none) = (disk, none)
about_file name (disk, some e) = (disk, some (about e name))

unfoldable pub and_then :
    Disk × Option HistoryError → (Disk → Disk × Option HistoryError) → Disk × Option HistoryError
and_then (disk, some e) next = (disk, some e)
and_then (disk, none) next = next disk

-- What the loop of `FindByRequestID` does with a match.
unfoldable pub has_request_id : Text → Attempt RunRecord → Bool
unfolding text_eq
has_request_id request_id (fails e) = false
has_request_id request_id (gives st) = text_eq st.request_id request_id

abbrev pub status_file_of : Text → Attempt RunRecord → Attempt StatusFile → Attempt StatusFile
status_file_of file (fails e) rest = rest
status_file_of file (gives st) rest = gives (record { file = file; status = st })

abbrev pub older : ℕ → Option File → Bool
older cutoff none = false
older cutoff (some f) = ltb f.mod_time cutoff

abbrev pub later_error : Option HistoryError → Option HistoryError → Option HistoryError
later_error last none = last
later_error last (some e) = some e

-- What is left of a failed write, whose file is removed.
abbrev pub undone : Text → HistoryError → Disk × Option HistoryError → Disk × Option HistoryError
undone temp e (disk, none) = (disk, some (about e temp))
undone temp e (disk, some r) = (disk, some (about_error e r))

-- A writer that was opened is that of the history.
abbrev pub with_writer :
    JsonDb → Disk × Writer × Option HistoryError → Disk × JsonDb × Option HistoryError
with_writer db (disk, w, some e) = (disk, db, some e)
with_writer db (disk, w, none) = (disk, record db { writer = some w }, none)

-- Nothing stays in the cache of a file that was written.
unfoldable pub forget : Text → JsonDb → JsonDb
unfolding invalidate
forget file db = record db { file_cache = forget_in db.file_cache }
  where
    forget_in : Option (Cache RunRecord) → Option (Cache RunRecord)
    forget_in none = none
    forget_in (some c) = some (invalidate file c)

module _ (outside : Outside) where
  unfoldable pub written_temp :
      Text → Disk × Writer × Option HistoryError → Disk × Option HistoryError
  unfolding remove
  written_temp temp (disk, w, none) = (disk, none)
  written_temp temp (disk, w, some e) = undone temp e (remove outside temp disk)

  unfoldable pub opened_temp :
      ℕ → Text → RunRecord → Disk × Writer × Option HistoryError → Disk × Option HistoryError
  unfolding write remove
  opened_temp now temp st (disk, w, some e) = (disk, some e)
  opened_temp now temp st (disk, w, none) = written_temp temp (write outside now st w disk)

  -- The name of the file that `Compact` writes.
  unfoldable pub temp_path : Text → Text
  unfolding trim_suffix
  temp_path target =
      outside.join_path (outside.dir target)
        (trim_suffix (outside.ext target) (outside.base target) ++ ascii "_c.dat")

  unfoldable pub replace_by : ℕ → Text → Attempt RunRecord → Disk → Disk × Option HistoryError
  unfolding new_writer open_writer write remove rename temp_path
  replace_by now target (fails HistoryError.eof) disk = (disk, none)
  replace_by now target (fails e) disk = (disk, some (about e target))
  replace_by now target (gives st) disk =
      let temp = temp_path target in
      and_then (opened_temp now temp st (open_writer outside now (new_writer temp) disk)) (λ disk.
        and_then (about_file target (remove outside target disk))
          (λ disk. about_file target (rename outside temp target disk)))

  -- `Compact`
  unfoldable pub compact : (now : ℕ) → Text → Disk → Disk × Option HistoryError
  unfolding parse_status_file new_writer open_writer write remove rename temp_path
  compact now target disk = replace_by now target (parse_status_file outside target disk) disk

  unfoldable pub find_in : Text → List Text → Disk → Attempt StatusFile
  unfolding parse_status_file text_eq
  find_in request_id [] disk = fails (about HistoryError.request_id_not_found request_id)
  find_in request_id (m ∷ ms) disk =
      let st = parse_status_file outside m disk in
      let rest = find_in request_id ms disk in
      if has_request_id request_id st then status_file_of m st rest else rest

  unfoldable pub find_among : Text → Attempt (List Text) → Disk → Attempt StatusFile
  unfolding parse_status_file text_eq sort_by text_lt
  find_among request_id (fails e) disk = fails e
  find_among request_id (gives matches) disk =
      find_in request_id (sort_by (λ a b. text_lt b a) matches) disk

  -- `FindByRequestID`
  unfoldable pub find_by_request_id : JsonDb → (key request_id : Text) → Disk → Attempt StatusFile
  unfolding parse_status_file text_eq sort_by text_lt glob glob_pattern
  find_by_request_id db key request_id disk =
      if text_eq request_id []
      then fails HistoryError.request_id_empty
      else find_among request_id (glob outside (glob_pattern outside db key) disk) disk

  unfoldable pub update_opened :
      ℕ
      → Text
      → RunRecord
      → JsonDb
      → Disk × Writer × Option HistoryError
      → Disk × JsonDb × Option HistoryError
  unfolding write forget
  update_opened now file st db (disk, w, some e) = (disk, db, some e)
  update_opened now file st db (disk, w, none) =
      let (disk', w', e) = write outside now st w disk in (disk', forget file db, e)

  unfoldable pub update_found :
      ℕ → RunRecord → Attempt StatusFile → JsonDb → Disk → Disk × JsonDb × Option HistoryError
  unfolding write forget new_writer open_writer
  update_found now st (fails e) db disk = (disk, db, some e)
  update_found now st (gives f) db disk =
      update_opened now f.file st db (open_writer outside now (new_writer f.file) disk)

  -- `Update`
  unfoldable pub update :
      (now : ℕ)
      → JsonDb
      → (key request_id : Text) → RunRecord
      → Disk
      → Disk × JsonDb × Option HistoryError
  unfolding write forget new_writer open_writer find_by_request_id
  update now db key request_id st disk =
      update_found now st (find_by_request_id db key request_id disk) db disk

  unfoldable pub open_path : ℕ → Attempt Text → JsonDb → Disk → Disk × JsonDb × Option HistoryError
  unfolding new_writer open_writer
  open_path now (fails e) db disk = (disk, db, some e)
  open_path now (gives path) db disk =
      with_writer db (open_writer outside now (new_writer path) disk)

  -- `Open`
  unfoldable pub open_run :
      (now : ℕ)
      → JsonDb
      → Text
      → (timestamp : ℕ) → Text
      → Disk
      → Disk × JsonDb × Option HistoryError
  unfolding new_writer open_writer generate_file_path
  open_run now db key timestamp request_id disk =
      open_path now (generate_file_path outside db key timestamp request_id) db disk

  -- `Write`. Without a writer, the call of its method is a panic.
  unfoldable pub write_run :
      (now : ℕ) → JsonDb → RunRecord → Disk → Option (Disk × JsonDb × Option HistoryError)
  unfolding write
  write_run now db st disk = go db.writer
    where
      go : Option Writer → Option (Disk × JsonDb × Option HistoryError)
      go none = none
      go (some w) =
          let (disk', w', e) = write outside now st w disk in
          some (disk', record db { writer = some w' }, e)

  unfoldable pub close_compacted :
      Text → JsonDb → Disk × Option HistoryError → Disk × JsonDb × Option HistoryError
  unfolding forget
  close_compacted target db (disk, some e) = (disk, record db { writer = none }, some e)
  close_compacted target db (disk, none) = (disk, record (forget target db) { writer = none }, none)

  -- `Close`. The writer is closed in any case, which leaves nothing of it.
  unfoldable pub close_run : (now : ℕ) → JsonDb → Disk → Disk × JsonDb × Option HistoryError
  unfolding compact forget
  close_run now db disk = go db.writer
    where
      go : Option Writer → Disk × JsonDb × Option HistoryError
      go none = (disk, db, none)
      go (some w) = close_compacted w.target db (compact now w.target disk)

  unfoldable pub remove_older :
      ℕ → List Text → Option HistoryError → Disk → Disk × Option HistoryError
  unfolding load remove
  remove_older cutoff [] last disk = (disk, last)
  remove_older cutoff (m ∷ ms) last disk =
      let done = if older cutoff (file_at disk m) then remove outside m disk else (disk, none) in
      remove_older cutoff ms (later_error last done.1) done.0

  unfoldable pub remove_among : ℕ → Attempt (List Text) → Disk → Disk × Option HistoryError
  unfolding load remove
  remove_among cutoff (fails e) disk = (disk, some e)
  remove_among cutoff (gives matches) disk = remove_older cutoff matches none disk

  -- `RemoveOld`
  unfoldable pub remove_old : (now : ℕ) → JsonDb → Text → ℤ → Disk → Disk × Option HistoryError
  unfolding load remove glob glob_pattern
  remove_old now db key (negsuc n) disk = (disk, none)
  remove_old now db key (pos days) disk =
      remove_among (outside.days_before now days) (glob outside (glob_pattern outside db key) disk)
        disk

  -- `RemoveAll`
  unfoldable pub remove_all : (now : ℕ) → JsonDb → Text → Disk → Disk × Option HistoryError
  unfolding remove_old
  remove_all now db key disk = remove_old now db key (pos 0) disk
