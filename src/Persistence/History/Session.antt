-- ===== src/Persistence/History/Session.antt =====
-- A run that is recorded: `Open`, a `Write` for each status, and `Close` of `JSONDB`
-- (internal/persistence/jsondb/jsondb.go), as `Run` of internal/agent/agent.go calls them.
use light_soar.Prelude.{ℕ, Option, none, some, List, [], ◌∷◌, Text}
use light_soar.Persistence.Record.Defs.{RunRecord}
use light_soar.Persistence.History.Files.{Outside, HistoryError, Disk}
use light_soar.Persistence.History.Defs.{JsonDb}
use light_soar.Persistence.History.Store.{open_run, write_run, close_run}

module _ (outside : Outside) where
  -- The errors of `Write` are not followed, as in the agent, which logs them.
  unfoldable pub write_all : ℕ → List RunRecord → JsonDb → Disk → Option (Disk × JsonDb)
  unfolding write_run
  write_all now [] db disk = some (disk, db)
  write_all now (st ∷ sts) db disk = go (write_run outside now db st disk) (write_all now sts)
    where
      go :
          Option (Disk × JsonDb × Option HistoryError)
          → (JsonDb → Disk → Option (Disk × JsonDb))
          → Option (Disk × JsonDb)
      go none rest = none
      go (some (disk', db', e)) rest = rest db' disk'

  unfoldable pub close_written :
      ℕ → Option (Disk × JsonDb) → Option (Disk × JsonDb × Option HistoryError)
  unfolding close_run
  close_written now none = none
  close_written now (some (disk, db)) = some (close_run outside now db disk)

  unfoldable pub record_opened :
      ℕ
      → List RunRecord
      → Disk × JsonDb × Option HistoryError
      → Option (Disk × JsonDb × Option HistoryError)
  unfolding write_all close_written
  record_opened now sts (disk, db, some e) = some (disk, db, some e)
  record_opened now sts (disk, db, none) = close_written now (write_all now sts db disk)

  -- All of it; nothing is left after a panic.
  unfoldable pub record_session :
      (now : ℕ)
      → JsonDb
      → Text
      → (timestamp : ℕ) → Text
      → List RunRecord
      → Disk
      → Option (Disk × JsonDb × Option HistoryError)
  unfolding open_run record_opened
  record_session now db key timestamp request_id sts disk =
      record_opened now sts (open_run outside now db key timestamp request_id disk)
