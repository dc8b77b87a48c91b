-- ===== src/Agent/Recorded.antt =====
-- What `Run` of internal/agent/agent.go leaves in the history.
use light_soar.Prelude.{
  true, false, Option, none, some, List, [], ◌∷◌, ◌++◌, map, Text, ◌≡◌, ◌≢◌, refl, ◌∙◌,
}
use light_soar.Digraph.Conditions.{Evaluation, Verdict}
use light_soar.Execution.Status.{Err}
use light_soar.Execution.Graph.Defs.{ExecutionGraph, ok}
use light_soar.Persistence.Record.Defs.{TimeFormat, RunRecord}
use light_soar.Persistence.History.Files.{Outside, Operation, HistoryError, gives, Disk, file_at}
use light_soar.Persistence.History.Writer.{parse_status_file}
use light_soar.Persistence.History.Defs.{JsonDb, generate_file_path}
use light_soar.Persistence.History.Store.{open_run, remove_old, temp_path}
use light_soar.Persistence.History.Written.{IsJson}
use light_soar.Persistence.History.Session.{record_opened, record_session}
use light_soar.Persistence.History.Recorded.{record_session-IsRecorded}
use light_soar.Persistence.History.Remove.{remove_old_none}
use light_soar.Agent.Defs.{
  Agent, AlreadyRunning, agent_status, setup_graph, check_preconditions, check_is_already_running,
}
use light_soar.Agent.Closed.{write_behind-closed}
use light_soar.Agent.Run.{
  schedules, Surroundings, execution, statuses, run_opened, run_recorded, run_unless_running,
  left_behind, run_checked, run_set_up, run,
}

failed_ne :
    {d d' : Disk} {db db' : JsonDb} {e : HistoryError}
    → ¬ (
        ◌≡◌ {A = Option (Disk × JsonDb × Option HistoryError)}
          (some (d, db, some e))
          (some (d', db', none)))
failed_ne h = cc

module _ (outside : Outside) (times : TimeFormat) (error_text : Err → Text)
    (evaluation : Evaluation) where
  -- The run is set up: its graph is built, its preconditions are met, it is not a dry run, no agent
  -- runs it already, and its socket is served.
  pub record IsPrepared (a : Agent) (i : Surroundings) : Type 0 where
    pub graph : ExecutionGraph
    pub built : (setup_graph times error_text i.order a i.next).0 ≡ ok graph
    pub conditions : check_preconditions evaluation a.dag.preconditions ≡ Verdict.met
    pub not_dry : a.dry ≡ false
    pub alone : check_is_already_running times outside.from_json a i.answer ≡ AlreadyRunning.may_run
    pub served : i.serves ≡ true

  run-IsPrepared :
      (a : Agent) (i : Surroundings) (db : JsonDb) (disk : Disk)
      → IsPrepared a i
      → run outside times error_text evaluation a i db disk
        ≡ run_recorded outside times error_text evaluation a i db disk
  unfolding run run_set_up run_checked run_unless_running
  run-IsPrepared a i db disk h = rw (h.built, h.conditions, h.not_dry) (rw h.alone refl)

  abbrev earlier : Agent → Surroundings → List RunRecord
  unfolding agent_status
  earlier a i =
      agent_status times error_text a i.first ∷ map (agent_status times error_text a) i.during

  opened_as :
      (a : Agent) (i : Surroundings) (o : Disk × JsonDb × Option HistoryError) (d : Disk)
      (db : JsonDb)
      → i.serves ≡ true
      → i.late ≡ []
      → record_opened outside i.now
          (earlier a i ++ agent_status times error_text a i.finished ∷ [])
          o
        ≡ some (d, db, none)
      → db.writer ≡ none
      → run_opened outside times error_text evaluation a i o
        ≡ (some (d, db), schedules ∷ [], execution i.schedule_error)
  unfolding run_opened record_opened statuses left_behind
  opened_as a i (d₀, db₀, some e) d db served on_time h closed = absurd (failed_ne h)
  opened_as a i (d₀, db₀, none) d db served on_time h closed =
      rw (served, on_time)
        (rw
          (
            h,
            write_behind-closed outside times error_text evaluation i.now
                (map (agent_status times error_text a) i.behind) db d closed,
          )
          refl)

  -- A run that is set up, whose history can be written, and after whose end no goroutine writes a
  -- status: it gives the error of the scheduler, the history has no writer left, and the file of the
  -- run gives the status that the run had at its end. The file of the run is not there before, nor the
  -- one that `Compact` writes, whose name is another, and JSON of the status is one line that is read
  -- back.
  pub run_records :
      (a : Agent) (i : Surroundings) (db : JsonDb) (disk : Disk) (path : Text)
      → IsPrepared a i
      → ((o : Operation) (p : Text) → outside.denied o p ≡ false)
      → i.late ≡ []
      → generate_file_path outside db a.dag.location i.timestamp a.request_id ≡ gives path
      → file_at disk path ≡ none
      → temp_path outside path ≢ path
      → file_at disk (temp_path outside path) ≡ none
      → IsJson outside (agent_status times error_text a i.finished)
      → (d : Disk) × (db' : JsonDb) × (run outside times error_text evaluation a i db disk
          ≡ (some (d, db'), schedules ∷ [], execution i.schedule_error))
        × (parse_status_file outside path d ≡ gives (agent_status times error_text a i.finished))
        × (db'.writer ≡ none)
  unfolding run_recorded record_session
  run_records a i db disk path set_up allowed on_time named new apart no_temp json =
      let cleaned = (remove_old outside i.now db a.dag.location a.dag.hist_retention_days disk).0 in
      let absent : (p : Text) → file_at disk p ≡ none → file_at cleaned p ≡ none =
        remove_old_none outside i.now db a.dag.location a.dag.hist_retention_days disk in
      let (d, db', e, reads, closed, others) =
        record_session-IsRecorded outside allowed i.now path cleaned
          (agent_status times error_text a i.finished) json apart
          (absent (temp_path outside path) no_temp) db a.dag.location i.timestamp a.request_id named
          (absent path new) (earlier a i) in
      (
        d,
        db',
        run-IsPrepared a i db disk set_up
            ∙ opened_as a i
                (open_run outside i.now db a.dag.location i.timestamp a.request_id cleaned) d db'
                set_up.served on_time e closed,
        reads,
        closed,
      )
