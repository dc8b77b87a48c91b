-- ===== src/Frontend/Marks.antt =====
-- A step that a user marks: `processUpdateStatus` of internal/frontend/handlers/dag.go together with
-- the client and the history.
use light_soar.Prelude.{
  true_ne_false, ℕ, suc, ◌+◌, Bool, true, false, ◌||◌, any, length, Option, none, some, List, [],
  ◌∷◌, ◌++◌, Text, text_eq, text_eq_refl, if_ind, ◌≡◌, refl, ap, ◌∙◌, arith,
}
use light_soar.Digraph.Dag.{Dag}
use light_soar.Execution.Status.{NodeStatus}
use light_soar.Persistence.Record.Defs.{
  TimeFormat, RunRecord, NodeRecord, is_running, correct_running_status,
}
use light_soar.Persistence.History.Files.{Outside, Attempt, gives, fails, Disk, File, file_at}
use light_soar.Persistence.History.Defs.{JsonDb, StatusFile}
use light_soar.Persistence.History.Store.{find_by_request_id, update}
use light_soar.Persistence.History.Written.{IsJson, ends_line}
use light_soar.Persistence.History.Update.{Updated, update_finds}
use light_soar.Persistence.History.Find.{find_by_request_id-request_id}
use light_soar.Client.Status.{Reply, correct_unless, get_current_status, get_status_by_request_id}
use light_soar.Frontend.Actions.{
  ActionBody, ClientCall, update_status, index_of_step, marked, mark_at, mark_found, mark_run,
  process_update_status,
}

unfoldable pub has_step : Text → List NodeRecord → Bool
unfolding text_eq
has_step step = any (λ (n : NodeRecord). text_eq n.step.name step)

both_false : (a b : Bool) → a || b ≡ false → (a ≡ false) × (b ≡ false)
both_false true b h = absurd (true_ne_false h)
both_false false b h = (refl, h)

index_of_step_none :
    (step : Text) (idx : ℕ) (ns : List NodeRecord) (last : Option ℕ)
    → has_step step ns ≡ false
    → index_of_step step idx ns last ≡ last
unfolding index_of_step has_step
index_of_step_none step idx [] last h = refl
index_of_step_none step idx (n ∷ ns) last h =
    let (other, later) = both_false (text_eq n.step.name step) (has_step step ns) h in
    rw other (index_of_step_none step (suc idx) ns last later)

index_of_step-append :
    (step : Text) (idx : ℕ) (front back : List NodeRecord) (n : NodeRecord) (last : Option ℕ)
    → n.step.name ≡ step
    → has_step step back ≡ false
    → index_of_step step idx (front ++ n ∷ back) last ≡ some (idx + length front)
unfolding index_of_step
index_of_step-append step idx [] back n last named alone = rw named (
    rw (text_eq_refl step)
      (index_of_step_none step (suc idx) back (some idx) alone ∙ ap (λ i. some i) (omega arith)))
index_of_step-append step idx (m ∷ front) back n last named alone =
    index_of_step-append step (suc idx) front back n _ named alone ∙ ap (λ i. some i) (omega arith)

mark_at-append :
    (to : NodeStatus) (front back : List NodeRecord) (n : NodeRecord)
    → mark_at (length front) to (front ++ n ∷ back) ≡ front ++ marked to n ∷ back
unfolding mark_at
mark_at-append to [] back n = refl
mark_at-append to (m ∷ front) back n = ap (λ ns. m ∷ ns) (mark_at-append to front back n)

-- What a correction of the status keeps.
corrected_keeps :
    {A : Type 0} (field : RunRecord → A) (m : Option RunRecord) (id : Text) (r : RunRecord)
    → field (correct_running_status r) ≡ field r
    → field (correct_unless m id r) ≡ field r
unfolding correct_unless
corrected_keeps field none id r h = refl
corrected_keeps field (some s) id r h = if_ind (λ x. field x ≡ field r) _ h refl

abbrev pub found_status : Attempt StatusFile → Option RunRecord
found_status (fails e) = none
found_status (gives f) = some f.status

module _ (outside : Outside) (times : TimeFormat) (succeeds : ClientCall → Bool) where
  -- The record of the run as it is written back
  unfoldable pub with_mark :
      Dag
      → Reply
      → Text
      → NodeStatus
      → StatusFile
      → List NodeRecord
      → NodeRecord
      → List NodeRecord
      → RunRecord
  unfolding correct_unless get_current_status marked
  with_mark dag answer id to f front n back =
      record (correct_unless (get_current_status times outside.from_json dag answer) id f.status) {
        nodes = front ++ marked to n ∷ back;
      }

  module _ (dag : Dag) (answer : Reply) (body : ActionBody) (dag_status : RunRecord)
      (to : NodeStatus) (now : ℕ) (db : JsonDb) (disk : Disk) (f : StatusFile) (old : File)
      (front back : List NodeRecord) (n : NodeRecord)
      (asks_run : text_eq body.request_id [] ≡ false) (asks_step : text_eq body.step [] ≡ false)
      (not_running : is_running dag_status.status ≡ false)
      (was_found : find_by_request_id outside db dag.location body.request_id disk ≡ gives f)
      (was_there : file_at disk f.file ≡ some old) (ended : ends_line old.content ≡ true)
      (nodes_are : f.status.nodes ≡ front ++ n ∷ back) (named : n.step.name ≡ body.step)
      (is_last : has_step body.step back ≡ false) where
    abbrev recorded : RunRecord
    unfolding correct_unless get_current_status
    recorded =
        correct_unless (get_current_status times outside.from_json dag answer) body.request_id
          f.status

    recorded_nodes : recorded.nodes ≡ front ++ n ∷ back
    unfolding recorded correct_running_status
    recorded_nodes =
        corrected_keeps (λ r. r.nodes) (get_current_status times outside.from_json dag answer)
          body.request_id f.status
          (if_ind (λ (r : RunRecord). r.nodes ≡ f.status.nodes) (is_running f.status.status) refl
            refl)
        ∙ nodes_are

    recorded_request : recorded.request_id ≡ body.request_id
    unfolding recorded correct_running_status
    recorded_request =
        corrected_keeps (λ r. r.request_id) (get_current_status times outside.from_json dag answer)
          body.request_id f.status
          (if_ind (λ (r : RunRecord). r.request_id ≡ f.status.request_id)
            (is_running f.status.status) refl refl)
        ∙ find_by_request_id-request_id outside db dag.location body.request_id disk f was_found

    mark_run-marks :
        (mark_run succeeds body.step to (some recorded)).0
        ≡ some (update_status (with_mark dag answer body.request_id to f front n back))
    unfolding mark_run mark_found with_mark recorded
    mark_run-marks =
        ap (λ o. (mark_found succeeds body.step to recorded o).0)
          (ap (λ ns. index_of_step body.step 0 ns none) recorded_nodes
            ∙ index_of_step-append body.step 0 front back n none named is_last
            ∙ ap (λ i. some i) (omega arith))
        ∙ ap (λ ns. some (update_status (record recorded { nodes = ns })))
            (ap (mark_at (length front) to) recorded_nodes ∙ mark_at-append to front back n)

    -- A user marks a step of a run that the history finds, where the workflow is not running and both
    -- the run and the step are named: the client is asked to update the run to a status in which the
    -- last node of the step has the new status and every other node is as it was. An update of the
    -- history to it finds the run with this status in the same file, or gives an error and writes nothing
    -- or a part of the line to that file; it changes no other file.
    -- The last line of the file is ended, and JSON of the new status is one line that is read back.
    pub process_update_status-finds :
        IsJson outside (with_mark dag answer body.request_id to f front n back)
        → ((process_update_status succeeds
              (λ id.
                get_status_by_request_id times outside.from_json dag answer id
                  (found_status (find_by_request_id outside db dag.location id disk)))
              body
              dag_status
              to).0
            ≡ some (update_status (with_mark dag answer body.request_id to f front n back)))
          × Updated outside db dag.location
              (with_mark dag answer body.request_id to f front n back)
              f
              body.request_id
              disk
              (update outside now db dag.location body.request_id
                (with_mark dag answer body.request_id to f front n back)
                disk)
    unfolding process_update_status get_status_by_request_id with_mark recorded
    process_update_status-finds json = (
      rw (asks_run, asks_step, not_running) (rw was_found mark_run-marks),
      update_finds outside now db dag.location body.request_id
          (with_mark dag answer body.request_id to f front n back) json disk f old was_found
          was_there ended recorded_request,
    )
