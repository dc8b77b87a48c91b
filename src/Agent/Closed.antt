-- ===== src/Agent/Closed.antt =====
-- `Run` of internal/agent/agent.go ends without a writer of the history.
use light_soar.Prelude.{ℕ, Option, none, some, List, [], ◌∷◌, map, Text, if_ind, ◌≡◌, refl, ap, ◌∙◌}
use light_soar.Digraph.Conditions.{Evaluation, Verdict}
use light_soar.Execution.Status.{Err}
use light_soar.Execution.Graph.Defs.{ExecutionGraph, Result, ok, err}
use light_soar.Persistence.Record.Defs.{TimeFormat, RunRecord}
use light_soar.Persistence.History.Files.{Outside, HistoryError, Attempt, gives, fails, Disk}
use light_soar.Persistence.History.Writer.{Writer, new_writer, open_writer, write}
use light_soar.Persistence.History.Defs.{JsonDb, generate_file_path}
use light_soar.Persistence.History.Store.{
  compact, forget, open_path, open_run, write_run, close_run, close_compacted, with_writer,
}
use light_soar.Persistence.History.Session.{write_all, close_written}
use light_soar.Agent.Defs.{
  Agent, AlreadyRunning, agent_status, setup_graph, check_preconditions, check_is_already_running,
}
use light_soar.Agent.Run.{
  Surroundings, End, left, left_behind, recovered, write_behind, statuses, run_opened, run_recorded,
  run_unless_running, run_checked, run_set_up, run,
}

-- Something is left, and no writer of it.
abbrev pub IsClosed : Option (Disk × JsonDb) → Type 0
IsClosed r = (d : Disk) × (db : JsonDb) × (r ≡ some (d, db)) × (db.writer ≡ none)

some_pair : {s t : Disk × JsonDb} → some s ≡ some t → s ≡ t
some_pair h = cc

module _ (outside : Outside) where
  write_all_keeps :
      (now : ℕ) (sts : List RunRecord) (db : JsonDb) (disk : Disk) (w : Writer)
      → db.writer ≡ some w
      → (d : Disk) × (db' : JsonDb) × (w' : Writer) × (write_all outside now sts db disk
          ≡ some (d, db'))
        × (db'.writer ≡ some w')
  unfolding write_all write_run
  write_all_keeps now [] db disk w h = (disk, db, w, refl, h)
  write_all_keeps now (st ∷ sts) db disk w h =
      let r = write outside now st w disk in
      let (d, db', w', e, h') =
        write_all_keeps now sts (record db { writer = some r.1 }) r.0 r.1 refl in
      (d, db', w', rw h e, h')

  close_written-IsClosed :
      (now : ℕ) (sts : List RunRecord) (db : JsonDb) (disk : Disk) (w : Writer)
      → db.writer ≡ some w
      → IsClosed (left (close_written outside now (write_all outside now sts db disk)))
  unfolding close_written close_run close_compacted
  close_written-IsClosed now sts db disk w h =
      let (d, db', w', e, h') = write_all_keeps now sts db disk w h in
      rw e (rw h' (go (compact outside now w'.target d) db' w'.target))
    where
      go :
          (r : Disk × Option HistoryError) (db : JsonDb) (target : Text)
          → IsClosed (left (some (close_compacted outside target db r)))
      go (d, some e) db target = (d, record db { writer = none }, refl, refl)
      go (d, none) db target = (d, record (forget target db) { writer = none }, refl, refl)

  no_writer :
      (now : ℕ) (db : JsonDb) (st : RunRecord) (disk : Disk)
      → db.writer ≡ none
      → write_run outside now db st disk ≡ none
  unfolding write_run
  no_writer now db st disk h = rw h refl

  -- A write without a writer panics, and the panic is recovered.
  pub write_behind-closed :
      (times : TimeFormat) (error_text : Err → Text) (evaluation : Evaluation) (now : ℕ)
      (sts : List RunRecord) (db : JsonDb) (disk : Disk)
      → db.writer ≡ none
      → write_behind outside times error_text evaluation now sts (disk, db) ≡ (disk, db)
  unfolding write_behind write_run
  write_behind-closed times error_text evaluation now [] db disk h = refl
  write_behind-closed times error_text evaluation now (st ∷ sts) db disk h =
      ap
        (λ o.
          write_behind outside times error_text evaluation now sts
            (recovered outside times error_text evaluation (disk, db) o))
        (no_writer now db st disk h)
      ∙ write_behind-closed times error_text evaluation now sts db disk h

  module _ (times : TimeFormat) (error_text : Err → Text) (evaluation : Evaluation) (a : Agent)
      (i : Surroundings) (db : JsonDb) (had_none : db.writer ≡ none) where
    abbrev Ends : End → Type 0
    Ends e = IsClosed e.0

    behind-IsClosed :
        (r : Option (Disk × JsonDb))
        → IsClosed r
        → IsClosed (
            left_behind outside times error_text evaluation i.now
              (map (agent_status times error_text a) i.behind)
              r)
    unfolding left_behind
    behind-IsClosed none (d, db', e, h) = absurd (cc)
    behind-IsClosed (some (d₀, db₀)) (d, db', e, h) =
        let same = some_pair e in
        let h₀ = ap (λ (s : Disk × JsonDb). s.1.writer) same ∙ h in
        (
          d₀,
          db₀,
          ap some (
              write_behind-closed times error_text evaluation i.now
                (map (agent_status times error_text a) i.behind) db₀ d₀ h₀),
          h₀,
        )

    opened-IsClosed :
        (o : Disk × Writer × Option HistoryError)
        → Ends (run_opened outside times error_text evaluation a i (with_writer db o))
    unfolding run_opened
    opened-IsClosed (d, w, some e) = (d, db, refl, had_none)
    opened-IsClosed (d, w, none) =
        let closed =
          close_written-IsClosed i.now
            (agent_status times error_text a i.first
              ∷ statuses outside times error_text evaluation a i)
            (record db { writer = some w }) d w refl in
        if_ind (λ (e : End). Ends e) i.serves (behind-IsClosed _ closed) closed

    recorded-IsClosed :
        (disk : Disk) → Ends (run_recorded outside times error_text evaluation a i db disk)
    unfolding run_recorded open_run open_path run_opened
    recorded-IsClosed disk =
        go (generate_file_path outside db a.dag.location i.timestamp a.request_id) _
      where
        go :
            (path : Attempt Text) (disk : Disk)
            → Ends (
                run_opened outside times error_text evaluation a i
                  (open_path outside i.now path db disk))
        go (fails e) disk = (disk, db, refl, had_none)
        go (gives path) disk = opened-IsClosed (open_writer outside i.now (new_writer path) disk)

    -- However a run ends, whatever the operating system refuses, and whatever statuses its goroutines
    -- write when the history is closed, `Run` of an agent whose history had no writer does not panic and
    -- leaves none.
    pub run-IsClosed :
        (disk : Disk) → IsClosed (run outside times error_text evaluation a i db disk).0
    unfolding run run_set_up run_checked run_unless_running
    run-IsClosed disk = set_up (setup_graph times error_text i.order a i.next).0
      where
        untouched : IsClosed (some (disk, db))
        untouched = (disk, db, refl, had_none)

        unless :
            (r : AlreadyRunning)
            → Ends (run_unless_running outside times error_text evaluation a i r db disk)
        unless AlreadyRunning.may_run = recorded-IsClosed disk
        unless AlreadyRunning.no_status = untouched
        unless (AlreadyRunning.is_running s) = untouched

        checked :
            (v : Verdict) → Ends (run_checked outside times error_text evaluation a i v db disk)
        checked Verdict.met =
            if_ind (λ (e : End). Ends e) a.dry untouched
              (unless (check_is_already_running times outside.from_json a i.answer))
        checked Verdict.not_met = untouched
        checked Verdict.cannot_eval = untouched

        set_up :
            (r : Result ExecutionGraph)
            → Ends (run_set_up outside times error_text evaluation a i r db disk)
        set_up (err e) = untouched
        set_up (ok g) = checked (check_preconditions evaluation a.dag.preconditions)
