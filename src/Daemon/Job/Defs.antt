-- ===== src/Daemon/Job/Defs.antt =====
-- `dagJob` and the calls of it. A time is the number of nanoseconds since Go's zero time, a duration
-- an integer of 64 bits. The client's calls are values; its latest status, the parsed time of the
-- latest start and the cron schedule are arguments.
use light_soar.Prelude.{
  ℕ, zero, suc, ◌+◌, ◌-◌, ◌%◌, ltb, leb, ◌==◌, ℤ, pos, negsuc, Bool, true, false, not, ◌&&◌, ◌||◌,
  Option, none, some, List, [], ◌∷◌, if◌then◌else◌,
}
use light_soar.Execution.Status.{Status}

abbrev pub minute : ℕ
minute = 60_000_000_000

abbrev pub second : ℕ
second = 1_000_000_000

-- `Time.Truncate` by a minute
unfoldable pub truncate_minute : ℕ → ℕ
truncate_minute t = t - t % minute

-- The least and the greatest duration are -2^63 and 2^63 - 1.
abbrev pub max_duration : ℕ
max_duration = 9_223_372_036_854_775_807

abbrev clamp : ℕ → ℕ
clamp n = if leb n max_duration then n else max_duration

-- `Time.Sub`
unfoldable pub sub_time : ℕ → ℕ → ℤ
sub_time t u = if leb u t then pos (clamp (t - u)) else negsuc (clamp (u - t - 1))

-- `-d`, which gives the least duration back
unfoldable pub negate : ℤ → ℤ
negate (pos zero) = pos zero
negate (pos (suc n)) = negsuc n
negate (negsuc n) = if n == max_duration then negsuc n else pos (suc n)

-- `Time.Add`
unfoldable pub add_time : ℕ → ℤ → ℕ
add_time t (pos n) = t + n
add_time t (negsuc n) = t - (n + 1)

pub data JobErr : Type 0 where
  job_running job_is_not_running job_finished job_success : JobErr

-- The parts of `dagJob` that its methods read.
pub record DagJob : Type 0 where
  pub skip_if_successful : Bool
  pub next : ℕ
  pub schedule : ℕ → ℕ

-- The parts of the latest status that the job reads. `started_at` is what `ParseTime` makes of its
-- text.
pub record Latest : Type 0 where
  pub status : Status
  pub started_at : Option ℕ

-- How a method ends: with a call of the client, whose error is the method's, or with an error.
pub data Outcome : Type 0 where
  start_called stop_called restart_called status_unknown type_unknown no_job : Outcome
  refused : JobErr → Outcome

abbrev pub is_running_status : Status → Bool
is_running_status Status.running = true
is_running_status _ = false

abbrev pub is_success_status : Status → Bool
is_success_status Status.success = true
is_success_status _ = false

-- `prevExecTime`
unfoldable pub prev_exec_time : DagJob → ℕ
unfolding add_time negate sub_time
prev_exec_time job =
    let next_next = job.schedule (add_time job.next (pos second)) in
    add_time job.next (negate (sub_time next_next job.next))

-- `skipIfSuccessful`
unfoldable pub skip_if_success : DagJob → Latest → ℕ → Option JobErr
unfolding prev_exec_time
skip_if_success job latest started =
    if not job.skip_if_successful || not (is_success_status latest.status)
    then none
    else if (ltb (prev_exec_time job) started || started == prev_exec_time job)
        && ltb started job.next
    then some job_success
    else none

abbrev started_before : DagJob → Latest → ℕ → Option JobErr
unfolding skip_if_success
started_before job latest started =
    if ltb job.next started || job.next == started
    then some job_finished
    else skip_if_success job latest started

abbrev ready_at : DagJob → Latest → Option ℕ → Option JobErr
unfolding truncate_minute skip_if_success
ready_at job latest none = none
ready_at job latest (some t) = started_before job latest (truncate_minute t)

-- `ready`
unfoldable pub ready : DagJob → Latest → Option JobErr
unfolding truncate_minute skip_if_success
ready job latest =
    if is_running_status latest.status
    then some job_running
    else ready_at job latest latest.started_at

abbrev start_if : Option JobErr → Outcome
start_if none = start_called
start_if (some e) = refused e

-- `Start`
unfoldable pub start : DagJob → Option Latest → Outcome
unfolding ready
start job none = status_unknown
start job (some latest) =
    if is_running_status latest.status then refused job_running else start_if (ready job latest)

-- `Stop`
unfoldable pub stop : DagJob → Option Latest → Outcome
stop job none = status_unknown
stop job (some latest) =
    if is_running_status latest.status then stop_called else refused job_is_not_running

pub data ScheduleType : Type 0 where
  type_start type_stop type_restart type_other : ScheduleType

-- `invoke`
unfoldable pub invoke : Option DagJob → ScheduleType → Option Latest → Outcome
unfolding start stop
invoke none s latest = no_job
invoke (some job) type_start latest = start job latest
invoke (some job) type_stop latest = stop job latest
invoke (some job) type_restart latest = restart_called
invoke (some job) type_other latest = type_unknown

-- The loop of `run`, over jobs sorted by their times: those that are invoked.
unfoldable pub due : ℕ → List DagJob → List DagJob
due now [] = []
due now (job ∷ jobs) = let rest = due now jobs in if ltb now job.next then [] else job ∷ rest

-- `nextTick`
unfoldable pub next_tick : ℕ → ℕ
unfolding truncate_minute
next_tick now = truncate_minute (now + minute)
