-- ===== src/Frontend/Actions.antt =====
-- `postAction` and `processUpdateStatus` of internal/frontend/handlers/dag.go. What the client gives is
-- an argument: the status of the workflow, that of a run, and whether its calls end without an error.
use light_soar.Prelude.{
  ℕ, zero, suc, Bool, true, false, not, Option, none, some, List, [], ◌∷◌, Text, ascii, text_eq,
  if◌then◌else◌,
}
use light_soar.Execution.Status.{NodeStatus, node_status_text}
use light_soar.Persistence.Record.Defs.{RunRecord, NodeRecord, is_running}

-- The body of the request
pub record ActionBody : Type 0 where
  pub action : Option Text
  pub value : Text
  pub request_id : Text
  pub step : Text
  pub params : Text

pub data ActionErr : Type 0 where
  action_required no_status already_running not_running request_id_required : ActionErr
  name_required invalid_action step_required still_running step_not_found : ActionErr
  cannot_stop cannot_retry cannot_save cannot_rename cannot_find cannot_update : ActionErr

-- The codes of the errors
abbrev pub is_internal : ActionErr → Bool
is_internal cannot_retry = true
is_internal cannot_save = true
is_internal cannot_rename = true
is_internal cannot_find = true
is_internal cannot_update = true
is_internal _ = false

-- A call of the client that changes something.
pub data ClientCall : Type 0 where
  start : (params : Text) → ClientCall
  suspend : Bool → ClientCall
  stop : ClientCall
  retry : (request_id : Text) → ClientCall
  update_status : RunRecord → ClientCall
  save : (spec : Text) → ClientCall
  rename : (name : Text) → ClientCall

pub data ActionResponse : Type 0 where
  accepted : (new_dag_id : Text) → ActionResponse
  refused : ActionErr → ActionResponse

abbrev pub Posted : Type 0
Posted = Option ClientCall × ActionResponse

abbrev refuse_with : ActionErr → Posted
refuse_with e = (none, refused e)

-- The loop of `processUpdateStatus`: the last node of this name counts.
unfoldable pub index_of_step : Text → (idx : ℕ) → List NodeRecord → Option ℕ → Option ℕ
unfolding text_eq
index_of_step step idx [] last = last
index_of_step step idx (n ∷ ns) last =
    index_of_step step (suc idx) ns (if text_eq n.step.name step then some idx else last)

unfoldable pub marked : NodeStatus → NodeRecord → NodeRecord
unfolding node_status_text
marked to n = record n { status = to; status_text = node_status_text to }

unfoldable pub mark_at : ℕ → NodeStatus → List NodeRecord → List NodeRecord
unfolding marked
mark_at idx to [] = []
mark_at zero to (n ∷ ns) = marked to n ∷ ns
mark_at (suc idx) to (n ∷ ns) = n ∷ mark_at idx to ns

module _ (succeeds : ClientCall → Bool) where
  abbrev calls : ClientCall → ActionErr → (new_dag_id : Text) → Posted
  calls c e id = (some c, if succeeds c then accepted id else refused e)

  unfoldable pub mark_found : Text → NodeStatus → RunRecord → Option ℕ → Posted
  unfolding mark_at
  mark_found step to r none = refuse_with step_not_found
  mark_found step to r (some idx) =
      calls (update_status (record r { nodes = mark_at idx to r.nodes })) cannot_update []

  unfoldable pub mark_run : Text → NodeStatus → Option RunRecord → Posted
  unfolding mark_found index_of_step
  mark_run step to none = refuse_with cannot_find
  mark_run step to (some r) = mark_found step to r (index_of_step step 0 r.nodes none)

  module _ (status_of_request : Text → Option RunRecord) where
    -- `processUpdateStatus`
    unfoldable pub process_update_status :
        ActionBody → (dag_status : RunRecord) → NodeStatus → Posted
    unfolding mark_run text_eq
    process_update_status body dag_status to =
        if text_eq body.request_id []
        then refuse_with request_id_required
        else if text_eq body.step []
        then refuse_with step_required
        else if is_running dag_status.status
        then refuse_with still_running
        else mark_run body.step to (status_of_request body.request_id)

    -- The cases that read the status of the workflow.
    unfoldable pub act : Text → ActionBody → RunRecord → Posted
    unfolding process_update_status text_eq
    act action body dag_status =
        if text_eq action (ascii "start")
        then (if is_running dag_status.status
            then refuse_with already_running
            else (some (start body.params), accepted []))
        else if text_eq action (ascii "suspend")
        then (some (suspend (text_eq body.value (ascii "true"))), accepted [])
        else if text_eq action (ascii "stop")
        then (if not (is_running dag_status.status)
            then refuse_with not_running
            else calls stop cannot_stop [])
        else if text_eq action (ascii "retry")
        then (if text_eq body.request_id []
            then refuse_with request_id_required
            else calls (retry body.request_id) cannot_retry [])
        else if text_eq action (ascii "mark-success")
        then process_update_status body dag_status NodeStatus.success
        else if text_eq action (ascii "mark-failed")
        then process_update_status body dag_status NodeStatus.error
        else if text_eq action (ascii "rename")
        then (if text_eq body.value []
            then refuse_with name_required
            else calls (rename body.value) cannot_rename body.value)
        else refuse_with invalid_action

    unfoldable pub act_on : Text → ActionBody → Option RunRecord → Posted
    unfolding act
    act_on action body none = refuse_with no_status
    act_on action body (some dag_status) = act action body dag_status

    -- `postAction`, with what `GetStatus` gives, which is not asked before a save
    unfoldable pub post_action : ActionBody → Option RunRecord → Posted
    unfolding act_on text_eq
    post_action body status = go body.action
      where
        go : Option Text → Posted
        go none = refuse_with action_required
        go (some action) =
            if text_eq action (ascii "save")
            then calls (save body.value) cannot_save []
            else act_on action body status
