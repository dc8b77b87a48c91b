-- ===== src/Client/Status.antt =====
-- The status of a workflow: `GetCurrentStatus`, `GetStatusByRequestID`, `GetLatestStatus` and
-- `UpdateStatus` of internal/client/client.go. How the request over the socket ends, what the history
-- holds, and the decoder of JSON are arguments.
use light_soar.Prelude.{
  Bool, true, false, not, ◌&&◌, Option, none, some, [], if◌then◌else◌, Text, text_eq, text_eq→eq,
  text_eq_iff, subst, ◌≡◌, inl, inr, refl, ap, Bool-cases, ◌↔◌,
}
use light_soar.Digraph.Dag.{Dag}
use light_soar.Execution.Status.{Status, status_text}
use light_soar.Persistence.Record.Defs.{
  RunRecord, TimeFormat, create_default, is_running, correct_running_status,
}

some_injective : {a b : RunRecord} → some a ≡ some b → a ≡ b
some_injective h = cc

-- How `Request` ends.
pub data Reply : Type 0 where
  reply : Text → Reply
  timed_out : Reply
  failed : Reply

-- How `ReadStatusToday` ends: `no_data` is one of the two errors about missing data.
pub data Today : Type 0 where
  today : RunRecord → Today
  no_data : Today
  cannot_read : Today

-- How `UpdateStatus` goes on.
pub data Update : Type 0 where
  gives_up dag_is_running updates_history : Update

unfoldable pub correct_unless : Option RunRecord → Text → RunRecord → RunRecord
unfolding correct_running_status text_eq
correct_unless none id r = r
correct_unless (some s) id r = if not (text_eq s.request_id id) then correct_running_status r else r

unfoldable pub refuses : Option RunRecord → RunRecord → Bool
unfolding text_eq
refuses none r = false
refuses (some s) r = text_eq s.request_id r.request_id && is_running s.status

corrected : (r : RunRecord) → ¬ ((correct_running_status r).status ≡ Status.running)
unfolding correct_running_status
corrected r = go (is_running r.status) refl
  where
    go :
        (b : Bool)
        → is_running r.status ≡ b
        → ¬ (
            (if b
              then record r { status = Status.error; status_text = status_text Status.error }
              else r).status
            ≡ Status.running)
    go true e = λ h. cc
    go false e = λ h. let running = ap is_running h in cc

abbrev pub IsFor : Option RunRecord → Text → Type 0
IsFor none id = Unit
IsFor (some s) id = s.request_id ≡ id

-- The agent may still run the workflow under this request: it did not answer in time, or it answered
-- what is no status or one of this request. Where the request failed, there is no agent, and only a
-- request without a number is not given up.
abbrev pub MayRun : (from_json : Text → Option RunRecord) → Reply → Text → Type 0
MayRun from_json (reply t) id = IsFor (from_json t) id
MayRun from_json timed_out id = Unit
MayRun from_json failed id = [] ≡ id

correct_unless-running :
    (m : Option RunRecord) (id : Text) (r : RunRecord)
    → ((correct_unless m id r).status ≡ Status.running) ↔ ((r.status ≡ Status.running) × IsFor m id)
unfolding correct_unless
correct_unless-running none id r = ((λ h. (h, tt)), λ p. p.0)
correct_unless-running (some s) id r = elim (Bool-cases (text_eq s.request_id id)) [
  | inl same ↦ rw same ((λ h. (h, text_eq→eq s.request_id id same)), λ p. p.0)
  | inr other ↦ rw other (
    (λ h. absurd (corrected r h)),
    λ p. let same = (text_eq_iff s.request_id id).1 p.1 in absurd (cc),
  )
]

module _ (times : TimeFormat) (from_json : Text → Option RunRecord) where
  -- `GetCurrentStatus`; an error gives no status.
  unfoldable pub get_current_status : Dag → Reply → Option RunRecord
  get_current_status dag (reply t) = from_json t
  get_current_status dag timed_out = none
  get_current_status dag failed = some (create_default times dag)

  -- `currentStatus`
  unfoldable pub current_status : Reply → Option RunRecord
  current_status (reply t) = from_json t
  current_status timed_out = none
  current_status failed = none

  -- `GetStatusByRequestID`, with what the history gives.
  unfoldable pub get_status_by_request_id : Dag → Reply → Text → Option RunRecord → Option RunRecord
  unfolding get_current_status correct_unless
  get_status_by_request_id dag answer id none = none
  get_status_by_request_id dag answer id (some r) =
      some (correct_unless (get_current_status dag answer) id r)

  -- Behind the test of `GetLatestStatus`: the status that it gives, and whether it gives no error.
  unfoldable pub latest_or : Dag → Today → Option RunRecord → RunRecord × Bool
  unfolding correct_running_status create_default
  latest_or dag history (some s) = (s, true)
  latest_or dag (today r) none = (correct_running_status r, true)
  latest_or dag no_data none = (create_default times dag, true)
  latest_or dag cannot_read none = (create_default times dag, false)

  -- `GetLatestStatus`
  unfoldable pub get_latest_status : Dag → Reply → Today → RunRecord × Bool
  unfolding current_status latest_or
  get_latest_status dag answer history = latest_or dag history (current_status answer)

  -- `UpdateStatus`
  unfoldable pub update_status : Reply → RunRecord → Update
  unfolding refuses
  update_status (reply t) r = if refuses (from_json t) r then dag_is_running else updates_history
  update_status timed_out r = gives_up
  update_status failed r = updates_history

  -- `GetStatusByRequestID` reports a run as running exactly when it is recorded so and the agent does
  -- not answer in time, answers what is no status, answers with a status of this request, or is not
  -- reached and the request that is asked for has no number.
  pub get_status_by_request_id-running :
      (dag : Dag) (answer : Reply) (id : Text) (r s : RunRecord)
      → get_status_by_request_id dag answer id (some r) ≡ some s
      → (s.status ≡ Status.running) ↔ ((r.status ≡ Status.running) × MayRun from_json answer id)
  unfolding get_status_by_request_id get_current_status create_default
  get_status_by_request_id-running dag answer id r s h =
      subst
        (λ s'.
          (s'.status ≡ Status.running) ↔ ((r.status ≡ Status.running) × MayRun from_json answer id))
        (some_injective h) (go answer)
    where
      go :
          (answer : Reply)
          → ((correct_unless (get_current_status dag answer) id r).status ≡ Status.running)
            ↔ ((r.status ≡ Status.running) × MayRun from_json answer id)
      go (reply t) = correct_unless-running (from_json t) id r
      go timed_out = correct_unless-running none id r
      go failed = correct_unless-running (some (create_default times dag)) id r

  latest_or-running :
      (dag : Dag) (history : Today) (m : Option RunRecord)
      → (latest_or dag history m).0.status ≡ Status.running
      → m ≡ some (latest_or dag history m).0
  unfolding create_default correct_running_status latest_or
  latest_or-running dag history (some s) h = refl
  latest_or-running dag (today r) none h = absurd (corrected r h)
  latest_or-running dag no_data none h = absurd (cc)
  latest_or-running dag cannot_read none h = absurd (cc)

  -- A status that `GetLatestStatus` gives as running is the answer of the agent.
  pub get_latest_status-running :
      (dag : Dag) (answer : Reply) (history : Today)
      → (get_latest_status dag answer history).0.status ≡ Status.running
      → current_status answer ≡ some (get_latest_status dag answer history).0
  unfolding get_latest_status
  get_latest_status-running dag answer history h =
      latest_or-running dag history (current_status answer) h
