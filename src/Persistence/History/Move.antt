-- ===== src/Persistence/History/Move.antt =====
-- `Rename` of `JSONDB` (internal/persistence/jsondb/jsondb.go): the files of a workflow that is renamed.
use light_soar.Prelude.{
  any, Bool, not, ◌||◌, Option, none, some, List, [], ◌∷◌, ◌++◌, Text, text_eq, if◌then◌else◌,
}
use light_soar.Persistence.History.Files.{
  Outside, HistoryError, about, about_error, Attempt, gives, fails, Disk, dir_exists, mkdir_all,
  rename,
}
use light_soar.Persistence.History.Defs.{
  JsonDb, replace_first, get_prefix, get_directory, create_prefix, glob_pattern, glob, select,
  names_of,
}

unfoldable pub without : Text → List Text → List Text
unfolding text_eq
without name names = select (λ n. not (text_eq n name)) names

module _ (outside : Outside) where
  -- A directory that has no file and no directory in it
  unfoldable pub is_empty_dir : Text → Disk → Bool
  unfolding text_eq
  is_empty_dir name disk =
      not (any (λ p. text_eq (outside.dir p) name) (names_of disk.files ++ disk.dirs))

  unfoldable pub rename_each : (new_dir old_prefix new_prefix : Text) → List Text → Disk → Disk
  unfolding rename replace_first
  rename_each new_dir old_prefix new_prefix [] disk = disk
  rename_each new_dir old_prefix new_prefix (m ∷ ms) disk =
      let new = outside.join_path new_dir (replace_first old_prefix new_prefix (outside.base m)) in
      rename_each new_dir old_prefix new_prefix ms (rename outside m new disk).0

  unfoldable pub remove_if_empty : Text → Disk → Disk
  unfolding text_eq
  remove_if_empty name disk =
      if is_empty_dir name disk then record disk { dirs = without name disk.dirs } else disk

  unfoldable pub ensure_dir : Text → Disk → Disk × Option HistoryError
  unfolding mkdir_all text_eq
  ensure_dir name disk =
      if dir_exists disk name then (disk, none) else failed (mkdir_all outside name disk)
    where
      failed : Disk × Option HistoryError → Disk × Option HistoryError
      failed (disk, none) = (disk, none)
      failed (disk, some e) = (disk, some (about_error (about HistoryError.no_new_dir name) e))

  -- `Rename`. A file that cannot be renamed stays where it is.
  unfoldable pub rename_key : JsonDb → (old_key new_key : Text) → Disk → Disk × Option HistoryError
  unfolding rename replace_first mkdir_all text_eq get_prefix get_directory create_prefix glob
      glob_pattern
  rename_key db old_key new_key disk =
      if not (outside.is_abs old_key) || not (outside.is_abs new_key)
      then (disk, some HistoryError.invalid_path)
      else if not (dir_exists disk old_dir)
      then (disk, none)
      else in_dirs (ensure_dir new_dir disk)
    where
      old_dir : Text
      old_dir = get_directory outside db old_key (get_prefix outside old_key)

      new_dir : Text
      new_dir = get_directory outside db new_key (get_prefix outside new_key)

      moved : Disk → Attempt (List Text) → Disk × Option HistoryError
      moved disk (fails e) = (disk, some e)
      moved disk (gives ms) = (
        remove_if_empty old_dir (
            rename_each new_dir (outside.base (create_prefix outside db old_key))
              (outside.base (create_prefix outside db new_key)) ms disk),
        none,
      )

      in_dirs : Disk × Option HistoryError → Disk × Option HistoryError
      in_dirs (disk, some e) = (disk, some e)
      in_dirs (disk, none) = moved disk (glob outside (glob_pattern outside db old_key) disk)
