-- ===== src/Persistence/History/Files.antt =====
-- The files that internal/persistence/jsondb reads and writes, with `OpenOrCreateFile` and
-- `IsYAMLFile` of internal/fileutil/fileutil.go. A file's content is its bytes. The file names, what
-- the operating system refuses, JSON, MD5 and the formats of times are outside.
use light_soar.Prelude.{
  ℕ, zero, suc, ◌+◌, Bool, true, false, not, ◌&&◌, ◌||◌, Option, none, some, List, [], ◌∷◌, ◌++◌,
  any, length, Text, ascii, text_eq, if◌then◌else◌,
}
use light_soar.Digraph.Variables.{store, load, delete}
use light_soar.Persistence.Record.Defs.{RunRecord}
use light_soar.Persistence.Cache.Defs.{Sweep}

pub data Operation : Type 0 where
  make_dir open_file create_file write_file remove_file rename_file : Operation

pub record Outside : Type 0 where
  pub denied : Operation → Text → Bool
  pub base : Text → Text
  pub dir : Text → Text
  pub ext : Text → Text
  pub join_path : Text → Text → Text
  pub is_abs : Text → Bool
  pub is_bad_pattern : Text → Bool
  pub matches : (pattern : Text) → Text → Bool
  pub to_json : RunRecord → Text
  pub from_json : Text → Option RunRecord
  pub md5_hex : Text → Text
  pub find_timestamp_text : Text → Text
  pub format_utc : ℕ → Text
  pub parse_utc : Text → Option ℕ
  pub parse_old_format : Text → Option ℕ
  pub days_before : ℕ → ℕ → ℕ
  -- How many bytes of a text still reach a file when its write is refused.
  pub reaches : (name text : Text) → ℕ
  -- What other goroutines drop from the cache during a look for a file.
  pub sweeps : Text → List Sweep

-- The errors of the package, of the files, and those that wrap another.
pub data HistoryError : Type 0 where
  writer_closed writer_not_open eof no_such_file request_id_empty request_id_not_found :
      HistoryError
  key_empty no_status_data no_status_data_today invalid_path bad_pattern no_new_dir : HistoryError
  -- The panic of a type assertion of the cache
  assertion_fails : HistoryError
  refused : Operation → Text → HistoryError
  about : HistoryError → Text → HistoryError
  about_error : HistoryError → HistoryError → HistoryError

pub data Attempt (T : Type 0) : Type 0 where
  gives : T → Attempt T
  fails : HistoryError → Attempt T

pub record File : Type 0 where
  pub content : Text
  pub mod_time : ℕ

pub record Disk : Type 0 where
  pub files : List (Text × File)
  pub dirs : List Text

-- An open file with the buffer before it, which is empty between the calls of the writer. One that
-- `os.Create` made is not opened to append: a write goes to its position. Behind a refused write the
-- buffer keeps its error and writes no more.
pub record Handle : Type 0 where
  pub name : Text
  pub appends : Bool
  pub position : ℕ
  pub broken : Bool

unfoldable pub take_text : ℕ → Text → Text
take_text zero s = []
take_text (suc n) [] = []
take_text (suc n) (c ∷ s) = c ∷ take_text n s

unfoldable pub drop_text : ℕ → Text → Text
drop_text zero s = s
drop_text (suc n) [] = []
drop_text (suc n) (c ∷ s) = drop_text n s

-- `strings.TrimSuffix`
unfoldable pub trim_suffix : Text → Text → Text
unfolding text_eq
trim_suffix suffix [] = []
trim_suffix suffix (c ∷ s) = if text_eq (c ∷ s) suffix then [] else c ∷ trim_suffix suffix s

unfoldable pub written : Handle → Text → Text → Text
unfolding take_text drop_text
written h text content =
    if h.appends
    then content ++ text
    else take_text h.position content ++ (text ++ drop_text (h.position + length text) content)

unfoldable pub file_at : Disk → Text → Option File
unfolding load
file_at disk name = load disk.files name

unfoldable pub set_file : Disk → Text → File → Disk
unfolding store
set_file disk name f = record disk { files = store disk.files name f }

unfoldable pub remove_file_at : Disk → Text → Disk
unfolding delete
remove_file_at disk name = record disk { files = delete disk.files name }

unfoldable pub dir_exists : Disk → Text → Bool
unfolding text_eq
dir_exists disk name = any (text_eq name) disk.dirs

unfoldable pub write_to : (now : ℕ) → Handle → Text → Option File → Disk → Disk
unfolding store written
write_to now h text none disk = disk
write_to now h text (some f) disk =
    set_file disk h.name (record { content = written h text f.content; mod_time = now })

-- A write of which only a part reaches the file.
unfoldable pub write_part : (now : ℕ) → Handle → Text → Option File → Disk → Disk
unfolding write_to
write_part now h [] f disk = disk
write_part now h (c ∷ part) f disk = write_to now h (c ∷ part) f disk

module _ (outside : Outside) where
  unfoldable pub open_existing : ℕ → Text → Option File → Disk → Disk × Attempt Handle
  unfolding store
  open_existing now name (some f) disk =
      if outside.denied open_file name
      then (disk, fails (refused open_file name))
      else (disk, gives (record { name = name; appends = true; position = 0; broken = false }))
  open_existing now name none disk =
      if outside.denied create_file name then (disk, fails (refused create_file name)) else (
        set_file disk name (record { content = []; mod_time = now }),
        gives (record { name = name; appends = false; position = 0; broken = false }),
      )

  -- `OpenOrCreateFile`, with `openFile` and `createFile`
  unfoldable pub open_or_create_file : (now : ℕ) → Text → Disk → Disk × Attempt Handle
  unfolding load store
  open_or_create_file now name disk = open_existing now name (file_at disk name) disk

  -- `os.MkdirAll`
  unfoldable pub mkdir_all : Text → Disk → Disk × Option HistoryError
  unfolding text_eq
  mkdir_all name disk =
      if outside.denied make_dir name then (disk, some (refused make_dir name)) else (
        record disk { dirs = if dir_exists disk name then disk.dirs else name ∷ disk.dirs },
        none,
      )

  -- The writes of a line through the buffer and its flush, with the time that the file then has. The
  -- text goes to the file in parts; where the operating system refuses one, those before it are there.
  -- A file that was removed in the meantime takes the bytes with it.
  unfoldable pub write_bytes :
      (now : ℕ) → Handle → Text → Disk → Disk × Handle × Option HistoryError
  unfolding load store written take_text write_part
  write_bytes now h text disk =
      if h.broken
      then (disk, h, some (refused write_file h.name))
      else if outside.denied write_file h.name
      then (
        write_part now h (take_text (outside.reaches h.name text) text) (file_at disk h.name) disk,
        record h { broken = true },
        some (refused write_file h.name),
      )
      else (
        write_to now h text (file_at disk h.name) disk,
        record h { position = h.position + length text },
        none,
      )

  unfoldable pub remove_existing : Text → Option File → Disk → Disk × Option HistoryError
  unfolding delete
  remove_existing name none disk = (disk, some no_such_file)
  remove_existing name (some f) disk =
      if outside.denied remove_file name
      then (disk, some (refused remove_file name))
      else (remove_file_at disk name, none)

  -- `os.Remove` of a file
  unfoldable pub remove : Text → Disk → Disk × Option HistoryError
  unfolding load delete
  remove name disk = remove_existing name (file_at disk name) disk

  unfoldable pub rename_existing : Text → Text → Option File → Disk → Disk × Option HistoryError
  unfolding store delete
  rename_existing old new none disk = (disk, some no_such_file)
  rename_existing old new (some f) disk =
      if outside.denied rename_file old
      then (disk, some (refused rename_file old))
      else (set_file (remove_file_at disk old) new f, none)

  -- `os.Rename` of a file
  unfoldable pub rename : Text → Text → Disk → Disk × Option HistoryError
  unfolding load store delete
  rename old new disk = rename_existing old new (file_at disk old) disk

  -- `IsYAMLFile`
  unfoldable pub is_yaml_file : Text → Bool
  unfolding text_eq
  is_yaml_file name =
      not (text_eq name [])
      && (text_eq (outside.ext name) (ascii ".yaml") || text_eq (outside.ext name) (ascii ".yml"))
