-- ===== src/Execution/Status.antt =====
-- The statuses of a node (internal/digraph/scheduler/data.go) and of a run
-- (internal/digraph/scheduler/scheduler.go), and the errors.
use light_soar.Prelude.{Bool, true, false, Text, ascii}

pub data NodeStatus : Type 0 where
  none running error cancel success skipped : NodeStatus

pub data Status : Type 0 where
  none running error cancel success : Status

-- The errors that the package names; any other is kept with its text.
pub data Err : Type 0 where
  cycle_detected upstream_failed upstream_skipped condition_not_met : Err
  step_not_found : Text → Err
  other : Text → Err

-- `NodeStatus.String`
unfoldable pub node_status_text : NodeStatus → Text
node_status_text NodeStatus.running = ascii "running"
node_status_text NodeStatus.error = ascii "failed"
node_status_text NodeStatus.cancel = ascii "canceled"
node_status_text NodeStatus.success = ascii "finished"
node_status_text NodeStatus.skipped = ascii "skipped"
node_status_text NodeStatus.none = ascii "not started"

-- `Status.String`
unfoldable pub status_text : Status → Text
status_text Status.running = ascii "running"
status_text Status.error = ascii "failed"
status_text Status.cancel = ascii "canceled"
status_text Status.success = ascii "finished"
status_text Status.none = ascii "not started"

-- The tests `status == NodeStatusX`.
abbrev pub is_none : NodeStatus → Bool
is_none NodeStatus.none = true
is_none _ = false

abbrev pub is_running : NodeStatus → Bool
is_running NodeStatus.running = true
is_running _ = false

abbrev pub is_error : NodeStatus → Bool
is_error NodeStatus.error = true
is_error _ = false

abbrev pub is_cancel : NodeStatus → Bool
is_cancel NodeStatus.cancel = true
is_cancel _ = false

abbrev pub is_success : NodeStatus → Bool
is_success NodeStatus.success = true
is_success _ = false

abbrev pub is_skipped : NodeStatus → Bool
is_skipped NodeStatus.skipped = true
is_skipped _ = false
