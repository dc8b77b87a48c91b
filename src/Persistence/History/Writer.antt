-- ===== src/Persistence/History/Writer.antt =====
-- `writer` of internal/persistence/jsondb/writer.go, and `ParseStatusFile` and `readLineFrom` of
-- internal/persistence/jsondb/jsondb.go.
use light_soar.Prelude.{
  ℕ, zero, suc, ◌+◌, ◌==◌, ltb, Bool, true, false, Option, none, some, [], ◌∷◌, ◌++◌, length, Text,
  if◌then◌else◌,
}
use light_soar.Persistence.Record.Defs.{RunRecord}
use light_soar.Persistence.History.Files.{
  Outside, HistoryError, Attempt, gives, fails, Disk, File, Handle, file_at, drop_text,
  open_or_create_file, mkdir_all, write_bytes,
}

pub record Writer : Type 0 where
  pub target : Text
  pub file : Option Handle
  pub closed : Bool

-- `newWriter`
unfoldable pub new_writer : Text → Writer
new_writer target = record { target = target; file = none; closed = false }

-- `close`. What was written is flushed, so that nothing is left to write; the errors that `Sync` and
-- `Close` may give are not followed.
unfoldable pub close_writer : Writer → Writer
close_writer w = if w.closed then w else record w { file = none; closed = true }

abbrev pub opened : Disk × Attempt Handle → Writer → Disk × Writer × Option HistoryError
opened (disk, fails e) w = (disk, w, some e)
opened (disk, gives h) w = (disk, record w { file = some h }, none)

module _ (outside : Outside) where
  unfoldable pub open_after :
      ℕ → Disk × Option HistoryError → Writer → Disk × Writer × Option HistoryError
  unfolding open_or_create_file
  open_after now (disk, some e) w = (disk, w, some e)
  open_after now (disk, none) w = opened (open_or_create_file outside now w.target disk) w

  -- `open`
  unfoldable pub open_writer : (now : ℕ) → Writer → Disk → Disk × Writer × Option HistoryError
  unfolding mkdir_all open_or_create_file
  open_writer now w disk =
      if w.closed
      then (disk, w, some HistoryError.writer_closed)
      else open_after now (mkdir_all outside (outside.dir w.target) disk) w

  -- What `write` writes: the JSON of the status and the end of a line.
  abbrev pub line_of : RunRecord → Text
  line_of st = outside.to_json st ++ b'\n' ∷ []

  unfoldable pub put_line :
      ℕ → RunRecord → Option Handle → Writer → Disk → Disk × Writer × Option HistoryError
  unfolding write_bytes
  put_line now st none w disk = (disk, w, some HistoryError.writer_not_open)
  put_line now st (some h) w disk =
      let done = write_bytes outside now h (line_of st) disk in
      (done.0, record w { file = some done.1 }, done.2)

  -- `write`
  unfoldable pub write : (now : ℕ) → RunRecord → Writer → Disk → Disk × Writer × Option HistoryError
  unfolding write_bytes
  write now st w disk =
      if w.closed then (disk, w, some HistoryError.writer_closed) else put_line now st w.file w disk

-- What `ReadLine` drops at the end of a line.
unfoldable pub drop_return : Text → Text
drop_return [] = []
drop_return (c ∷ []) = if c == b'\r' then [] else c ∷ []
drop_return (c ∷ d ∷ s) = c ∷ drop_return (d ∷ s)

-- What stands before the first end of a line, and whether there is one.
unfoldable pub cut_line : Text → Text × Bool
cut_line [] = ([], false)
cut_line (c ∷ s) =
    let (line, ended) = cut_line s in if c == b'\n' then ([], true) else (c ∷ line, ended)

-- How many bytes the reader's buffer of 4096 bytes holds, which `ReadLine` hands out when it is full
-- and no end of a line is in it; a return that fills it stays.
unfoldable pub fill : ℕ → Text → ℕ
fill n [] = n
fill n (c ∷ s) = fill (if n == 4095 then (if c == b'\r' then 1 else 0) else suc n) s

-- Where the file ends and the buffer is empty, `ReadLine` gives `EOF`.
unfoldable pub is_lost : Text → Bool
unfolding fill
is_lost line = fill 0 line == 0

-- The loop over the parts of a line, from where it begins, and whether its end is there.
unfoldable pub line_text : Text × Bool → Option Text
unfolding drop_return is_lost
line_text (line, false) = if is_lost line then none else some line
line_text (line, true) = some (drop_return line)

-- `readLineFrom`, behind the `Seek`: nothing at the end of the file, and nothing for a last line
-- without an end of which the file ends with a full buffer.
unfoldable pub read_line : Text → Option Text
unfolding line_text cut_line
read_line [] = none
read_line (c ∷ s) = line_text (cut_line (c ∷ s))

unfoldable pub newer : Option RunRecord → Option RunRecord → Option RunRecord
newer none result = result
newer (some st) result = some st

abbrev pub parsed : Option RunRecord → Attempt RunRecord
parsed none = fails HistoryError.eof
parsed (some st) = gives st

abbrev pub or_eof : Option (Attempt RunRecord) → Attempt RunRecord
or_eof none = fails HistoryError.eof
or_eof (some o) = o

module _ (outside : Outside) where
  -- What the body of the loop does with a line.
  unfoldable pub take_line : Text → Option RunRecord → Option RunRecord
  unfolding newer
  take_line line result =
      if ltb 0 (length line) then newer (outside.from_json line) result else result

  -- The loop of `ParseStatusFile`, for at most `fuel` lines.
  unfoldable pub parse_lines :
      (fuel offset : ℕ) → Option RunRecord → Text → Option (Attempt RunRecord)
  unfolding read_line newer drop_text
  parse_lines zero offset result content = none
  parse_lines (suc fuel) offset result content = elim (read_line (drop_text offset content)) [
    | none ↦ some (parsed result)
    | some line ↦ parse_lines fuel (offset + length line + 1) (take_line line result) content
  ]

  unfoldable pub parse_opened : Option File → Attempt RunRecord
  unfolding parse_lines
  parse_opened none = fails HistoryError.no_such_file
  parse_opened (some f) = or_eof (parse_lines (suc (length f.content)) 0 none f.content)

  -- `ParseStatusFile`; each line takes at least one byte.
  unfoldable pub parse_status_file : Text → Disk → Attempt RunRecord
  unfolding parse_lines
  parse_status_file name disk = parse_opened (file_at disk name)
