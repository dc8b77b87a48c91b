-- ===== src/Agent/Run.antt =====
-- `Run` of internal/agent/agent.go, from the checks to the last status in the history. What the
-- goroutines write meanwhile is a list of what they read of the run, in the order of the writes.
use light_soar.Prelude.{ℕ, Bool, Option, none, some, List, [], ◌∷◌, ◌++◌, map, Text, if◌then◌else◌}
use light_soar.Digraph.Conditions.{Evaluation, Verdict}
use light_soar.Execution.Status.{Status, Err}
use light_soar.Execution.Graph.Defs.{ExecutionGraph, MapOrder, Result, ok, err}
use light_soar.Persistence.Record.Defs.{TimeFormat, RunRecord}
use light_soar.Persistence.History.Files.{Outside, HistoryError, Disk}
use light_soar.Persistence.History.Defs.{JsonDb}
use light_soar.Persistence.History.Store.{open_run, remove_old, write_run}
use light_soar.Persistence.History.Session.{write_all, close_written}
use light_soar.Client.Status.{Reply}
use light_soar.Agent.Defs.{
  Agent, Snapshot, AlreadyRunning, agent_status, setup_graph, check_preconditions,
  check_is_already_running,
}

pub data RunErr : Type 0 where
  graph_error : Err → RunErr
  not_met : Verdict → RunErr
  no_current_status : RunErr
  already_running : Status → RunErr
  history_error : HistoryError → RunErr
  server_error : RunErr
  execution_error : Err → RunErr

-- What `Run` does with the scheduler.
pub data Action : Type 0 where
  cancels schedules : Action

-- What the surroundings of a run answer: the nodes' numbers, the agent that may run already, the
-- server of the socket, and what is read of the run at its first status, by the goroutines before and
-- after the last status, by those that write when the history is closed, and at the last status; and
-- the error of `Schedule`.
pub record Surroundings : Type 0 where
  pub order : MapOrder
  pub next : ℕ
  pub answer : Reply
  pub serves : Bool
  pub first : Snapshot
  pub during : List Snapshot
  pub finished : Snapshot
  pub late : List Snapshot
  pub behind : List Snapshot
  pub schedule_error : Option Err
  pub now : ℕ
  pub timestamp : ℕ

abbrev pub End : Type 0
End = Option (Disk × JsonDb) × List Action × Option RunErr

-- The error of `Close` is logged.
abbrev pub left : Option (Disk × JsonDb × Option HistoryError) → Option (Disk × JsonDb)
left none = none
left (some (disk, db, e)) = some (disk, db)

abbrev pub execution : Option Err → Option RunErr
execution none = none
execution (some e) = some (execution_error e)

module _ (outside : Outside) (times : TimeFormat) (error_text : Err → Text)
    (evaluation : Evaluation) where
  -- The statuses that are written before the server is there, and those behind.
  unfoldable pub statuses : Agent → Surroundings → List RunRecord
  unfolding agent_status
  statuses a i =
      (if i.serves
        then map (agent_status times error_text a) i.during
          ++ (agent_status times error_text a i.finished
              ∷ map (agent_status times error_text a) i.late)
        else [])

  -- `execWithRecovery` about a write of a goroutine: a panic changes nothing.
  abbrev pub recovered :
      Disk × JsonDb → Option (Disk × JsonDb × Option HistoryError) → Disk × JsonDb
  recovered s none = s
  recovered s (some (disk, db, e)) = (disk, db)

  -- The writes of goroutines for which `Run` does not wait.
  unfoldable pub write_behind : (now : ℕ) → List RunRecord → Disk × JsonDb → Disk × JsonDb
  unfolding write_run
  write_behind now [] s = s
  write_behind now (st ∷ sts) (disk, db) =
      write_behind now sts (recovered (disk, db) (write_run outside now db st disk))

  unfoldable pub left_behind :
      (now : ℕ) → List RunRecord → Option (Disk × JsonDb) → Option (Disk × JsonDb)
  unfolding write_behind
  left_behind now sts none = none
  left_behind now sts (some s) = some (write_behind now sts s)

  unfoldable pub run_opened : Agent → Surroundings → Disk × JsonDb × Option HistoryError → End
  unfolding write_all close_written write_behind left_behind statuses agent_status
  run_opened a i (disk, db, some e) = (some (disk, db), [], some (history_error e))
  run_opened a i (disk, db, none) =
      let after = left (
        close_written outside i.now (
          write_all outside i.now (agent_status times error_text a i.first ∷ statuses a i) db
            disk)) in
      if i.serves
      then (
        left_behind i.now (map (agent_status times error_text a) i.behind) after,
        schedules ∷ [],
        execution i.schedule_error,
      )
      else (after, [], some server_error)

  -- `setupDatabase`, and what follows it. The error of the removal is logged.
  unfoldable pub run_recorded : Agent → Surroundings → JsonDb → Disk → End
  unfolding remove_old open_run run_opened
  run_recorded a i db disk = run_opened a i (
      open_run outside i.now db a.dag.location i.timestamp a.request_id
        (remove_old outside i.now db a.dag.location a.dag.hist_retention_days disk).0)

  unfoldable pub run_unless_running : Agent → Surroundings → AlreadyRunning → JsonDb → Disk → End
  unfolding run_recorded
  run_unless_running a i AlreadyRunning.may_run db disk = run_recorded a i db disk
  run_unless_running a i AlreadyRunning.no_status db disk =
      (some (disk, db), cancels ∷ [], some no_current_status)
  run_unless_running a i (AlreadyRunning.is_running s) db disk =
      (some (disk, db), cancels ∷ [], some (already_running s))

  unfoldable pub run_checked : Agent → Surroundings → Verdict → JsonDb → Disk → End
  unfolding run_unless_running check_is_already_running
  run_checked a i Verdict.met db disk =
      if a.dry
      then (some (disk, db), schedules ∷ [], execution i.schedule_error)
      else run_unless_running a i (check_is_already_running times outside.from_json a i.answer) db
          disk
  run_checked a i v db disk = (some (disk, db), cancels ∷ [], some (not_met v))

  unfoldable pub run_set_up : Agent → Surroundings → Result ExecutionGraph → JsonDb → Disk → End
  unfolding run_checked check_preconditions
  run_set_up a i (err e) db disk = (some (disk, db), [], some (graph_error e))
  run_set_up a i (ok g) db disk =
      run_checked a i (check_preconditions evaluation a.dag.preconditions) db disk

  -- `Run`; nothing is left of the history after a panic.
  unfoldable pub run : Agent → Surroundings → JsonDb → Disk → End
  unfolding run_set_up setup_graph
  run a i db disk = run_set_up a i (setup_graph times error_text i.order a i.next).0 db disk
