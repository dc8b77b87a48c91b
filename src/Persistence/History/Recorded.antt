-- ===== src/Persistence/History/Recorded.antt =====
-- A run that is recorded without a refusal of the operating system: what its file gives
-- (internal/persistence/jsondb/jsondb.go).
use light_soar.Prelude.{
  ℕ, true, false, Option, none, some, List, [], ◌∷◌, ◌++◌, Text, if_ind, ◌≡◌, ◌≢◌, subst, refl, sym,
  ap, ◌∙◌,
}
use light_soar.Persistence.Record.Defs.{RunRecord}
use light_soar.Persistence.History.Files.{
  Outside, Operation, HistoryError, Attempt, gives, fails, Disk, Handle, file_at,
  open_or_create_file, mkdir_all,
}
use light_soar.Persistence.History.Writer.{
  Writer, new_writer, open_writer, open_after, opened, write, put_line, line_of, parse_status_file,
}
use light_soar.Persistence.History.Defs.{JsonDb, generate_file_path}
use light_soar.Persistence.History.Store.{
  temp_path, compact, open_path, open_run, write_run, close_run, close_compacted, forget,
}
use light_soar.Persistence.History.Written.{
  IsJson, ends_line, ends_line-append, last_status-line_of,
}
use light_soar.Persistence.History.Effects.{
  IsWritten, IsReady, Leaves, Puts, content_of, open_writer-Leaves, write-Puts,
}
use light_soar.Persistence.History.Compact.{Compacted, compact_keeps, parse_content}
use light_soar.Persistence.History.Success.{open_writer_succeeds, write_succeeds, compact_succeeds}
use light_soar.Persistence.History.Session.{write_all, close_written, record_opened, record_session}

some_ne : {e : HistoryError} → ¬ (some e ≡ none)
some_ne h = cc

some_injective : {A : Type 0} {a b : A} → some a ≡ some b → a ≡ b
some_injective h = cc

module _ (outside : Outside) where
  open_writer-target :
      (now : ℕ) (w : Writer) (disk : Disk) → (open_writer outside now w disk).1.target ≡ w.target
  unfolding open_writer open_after
  open_writer-target now w disk =
      if_ind (λ (r : Disk × Writer × Option HistoryError). r.1.target ≡ w.target) w.closed refl
        (go (mkdir_all outside (outside.dir w.target) disk))
    where
      of_opened : (r : Disk × Attempt Handle) → (opened r w).1.target ≡ w.target
      of_opened (d, fails e) = refl
      of_opened (d, gives h) = refl

      go : (r : Disk × Option HistoryError) → (open_after outside now r w).1.target ≡ w.target
      go (d, some e) = refl
      go (d, none) = of_opened (open_or_create_file outside now w.target d)

  write-target :
      (now : ℕ) (st : RunRecord) (w : Writer) (disk : Disk)
      → (write outside now st w disk).1.target ≡ w.target
  unfolding write put_line
  write-target now st w disk =
      if_ind (λ (r : Disk × Writer × Option HistoryError). r.1.target ≡ w.target) w.closed refl
        (go w.file)
    where
      go : (o : Option Handle) → (put_line outside now st o w disk).1.target ≡ w.target
      go none = refl
      go (some h) = refl

  -- The run's file is being written, and `content` is what it holds.
  record IsRecording (path content : Text) (disk disk' : Disk) (db : JsonDb) : Type 0 where
    writer : Writer
    has_writer : db.writer ≡ some writer
    targets : writer.target ≡ path
    is_written : IsWritten path content disk disk'
    ready : IsReady path content writer
    ended : ends_line content ≡ true

  module _ (allowed : (o : Operation) (p : Text) → outside.denied o p ≡ false) (now : ℕ)
      (path : Text) (disk : Disk) where
    -- A call that ended without an error, and what the file then holds.
    abbrev Continues : Option (Disk × JsonDb × Option HistoryError) → Text → Type 0
    Continues r content =
        (d : Disk) × (db : JsonDb) × (r ≡ some (d, db, none)) × IsRecording path content disk d db

    write-IsRecording :
        (st : RunRecord) (content : Text) (d : Disk) (db : JsonDb)
        → IsRecording path content disk d db
        → Continues (write_run outside now db st d) (content ++ line_of outside st)
    unfolding write_run
    write-IsRecording st content d db r =
        go (write outside now st r.writer d) refl
          (write-Puts outside now st path content r.writer disk d r.is_written r.ready)
          (write_succeeds outside allowed now st path content r.writer d r.ready)
      where
        go :
            (x : Disk × Writer × Option HistoryError)
            → write outside now st r.writer d ≡ x
            → Puts path content (line_of outside st) d x
            → x.2 ≡ none
            → Continues (write_run outside now db st d) (content ++ line_of outside st)
        go (d', w, some e) k leaves h = absurd (some_ne h)
        go (d', w, none) k (written, ready) h = (
          d',
          record db { writer = some w },
          rw (r.has_writer, k) refl,
          record {
            writer = w;
            has_writer = refl;
            targets =
                sym (ap (λ (x : Disk × Writer × Option HistoryError). x.1.target) k)
                ∙ write-target now st r.writer d
                ∙ r.targets;
            is_written = record {
              file = written.file;
              there = written.there;
              holds = written.holds;
              others = λ p q. written.others p q ∙ r.is_written.others p q;
            };
            ready = ready;
            ended = ends_line-append content (outside.to_json st);
          },
        )

    -- The last status stands behind a whole number of lines.
    write_all-IsRecording :
        (sts : List RunRecord) (st : RunRecord) (content : Text) (d : Disk) (db : JsonDb)
        → IsRecording path content disk d db
        → (before : Text) × (d' : Disk) × (db' : JsonDb) × (write_all outside now
              (sts ++ st ∷ [])
              db
              d
            ≡ some (d', db'))
          × IsRecording path (before ++ line_of outside st) disk d' db'
          × (ends_line before ≡ true)
    unfolding write_all
    write_all-IsRecording [] st content d db r =
        let (d', db', e, r') = write-IsRecording st content d db r in
        (content, d', db', rw e refl, r', r.ended)
    write_all-IsRecording (s ∷ sts) st content d db r =
        let (d', db', e, r') = write-IsRecording s content d db r in
        let (before, d'', db'', e', r'', ended) =
          write_all-IsRecording sts st (content ++ line_of outside s) d' db' r' in
        (before, d'', db'', rw e e', r'', ended)

    opened-IsRecording :
        (db : JsonDb)
        → file_at disk path ≡ none
        → Continues (some (open_path outside now (gives path) db disk)) []
    unfolding open_path ends_line
    opened-IsRecording db missing =
        go (open_writer outside now (new_writer path) disk) refl
          (subst
            (λ o. Leaves path (content_of o) disk (open_writer outside now (new_writer path) disk))
            missing (open_writer-Leaves outside now path disk))
          (open_writer_succeeds outside allowed now path disk)
      where
        go :
            (x : Disk × Writer × Option HistoryError)
            → open_writer outside now (new_writer path) disk ≡ x
            → Leaves path [] disk x
            → x.2 ≡ none
            → Continues (some (open_path outside now (gives path) db disk)) []
        go (d, w, some e) k leaves h = absurd (some_ne h)
        go (d, w, none) k (written, ready) h = (
          d,
          record db { writer = some w },
          rw k refl,
          record {
            writer = w;
            has_writer = refl;
            targets =
                sym (ap (λ (x : Disk × Writer × Option HistoryError). x.1.target) k)
                ∙ open_writer-target now (new_writer path) disk;
            is_written = written;
            ready = ready;
            ended = refl;
          },
        )

    module _ (st : RunRecord) (json : IsJson outside st) (apart : temp_path outside path ≢ path)
        (missing : file_at disk (temp_path outside path) ≡ none) where
      -- The run is recorded: its file gives the last status.
      abbrev pub IsRecorded : Option (Disk × JsonDb × Option HistoryError) → Type 0
      IsRecorded r =
          (d : Disk) × (db : JsonDb) × (r ≡ some (d, db, none))
          × (parse_status_file outside path d ≡ gives st)
          × (db.writer ≡ none)
          × ((p : Text) → p ≢ path → p ≢ temp_path outside path → file_at d p ≡ file_at disk p)

      closed-IsRecorded :
          (before : Text) (d : Disk) (db : JsonDb)
          → IsRecording path (before ++ line_of outside st) disk d db
          → ends_line before ≡ true
          → IsRecorded (some (close_run outside now db d))
      unfolding close_run close_compacted
      closed-IsRecorded before d db r ended =
          go (compact outside now path d) refl
            (compact_keeps outside now path st json d apart gone had)
            (compact_succeeds outside allowed now path st r.is_written.file d apart gone
              r.is_written.there had)
        where
          gone : file_at d (temp_path outside path) ≡ none
          gone = r.is_written.others (temp_path outside path) apart ∙ missing

          had : parse_status_file outside path d ≡ gives st
          had =
              parse_content outside path (before ++ line_of outside st) disk d st r.is_written
                (last_status-line_of outside st json before none ended)

          go :
              (x : Disk × Option HistoryError)
              → compact outside now path d ≡ x
              → Compacted outside path st d x
              → x.1 ≡ none
              → IsRecorded (some (close_run outside now db d))
          go (d', some e) k h n = absurd (some_ne n)
          go (d', none) k h n = (
            d',
            record (forget path db) { writer = none },
            rw (r.has_writer, r.targets, k) refl,
            h.0,
            refl,
            λ p q t. h.2 p q t ∙ r.is_written.others p q,
          )

      -- Where the operating system refuses nothing, `Open` of a run whose file is not there yet, any
      -- number of calls of `Write` and `Close` end without an error and without a panic, the file of
      -- the run then gives the last status that was written, the writer is gone, and no other file is
      -- changed but the one that `Compact` writes meanwhile. This one is not there before and has
      -- another name, and JSON of the last status is one line that is read back.
      pub record_session-IsRecorded :
          (db : JsonDb) (key : Text) (timestamp : ℕ) (request_id : Text)
          → generate_file_path outside db key timestamp request_id ≡ gives path
          → file_at disk path ≡ none
          → (sts : List RunRecord)
          → IsRecorded
              (record_session outside now db key timestamp request_id (sts ++ st ∷ []) disk)
      unfolding record_session record_opened open_run close_written
      record_session-IsRecorded db key timestamp request_id named new sts =
          let (d, db₁, e, r) = opened-IsRecording db new in
          let (before, d', db₂, e', r', ended) = write_all-IsRecording sts st [] d db₁ r in
          let (d'', db₃, e'', reads, closed, others) = closed-IsRecorded before d' db₂ r' ended in
          (d'', db₃, rw (named, some_injective e, e') e'', reads, closed, others)
