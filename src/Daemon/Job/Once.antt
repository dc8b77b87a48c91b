-- ===== src/Daemon/Job/Once.antt =====
-- That a job runs once for each of its times.
use light_soar.Prelude.{
  ℕ, zero, suc, ◌+◌, ◌-◌, ◌%◌, ◌≤◌, ◌<◌, ltb, leb, pos, true, some, ◌≡◌, ◌⊎◌, inl, inr, refl, ap,
  ◌∙◌, arith, Bool-cases, if◌then◌else◌, All, List, Option, none, [], ◌∷◌,
}
use light_soar.Execution.Status.{Status}
use light_soar.Daemon.Job.Defs.{
  minute, second, truncate_minute, max_duration, sub_time, negate, add_time, job_running,
  job_finished, job_success, DagJob, Latest, start_called, refused, is_running_status,
  prev_exec_time, skip_if_success, ready, start, next_tick, due, invoke, stop, type_start,
  type_stop, job_is_not_running,
}

-- A job whose time is a whole minute and whose latest run started then or later is not started
-- again: it is refused as running or as finished.
pub start_once :
    (job : DagJob) (latest : Latest) (t : ℕ)
    → job.next % minute ≡ 0
    → latest.started_at ≡ some t
    → job.next ≤ t
    → (start job (some latest) ≡ refused job_running)
      ⊎ (start job (some latest) ≡ refused job_finished)
unfolding start ready truncate_minute
start_once job latest t aligned parsed late = elim (Bool-cases (is_running_status latest.status)) [
  | inl running ↦ inl (ground (arith, running))
  | inr idle ↦ inr (ground (arith, idle, parsed))
]

-- The difference of times that are no more than 2^63 - 1 nanoseconds apart.
sub_period : (n p : ℕ) → p ≤ max_duration → sub_time (n + p) n ≡ pos p
unfolding sub_time
sub_period n p small = ground (arith, small)

add_back : (n p : ℕ) → add_time n (negate (pos p)) ≡ n - p
unfolding negate add_time
add_back n zero = omega arith
add_back n (suc p) = ap (λ k. n - k) (omega arith)

-- For a schedule with the period `p`, the time before `next` is `next - p`.
prev_period :
    (job : DagJob) (p : ℕ)
    → job.schedule (job.next + second) ≡ job.next + p
    → p ≤ max_duration
    → prev_exec_time job ≡ job.next - p
unfolding prev_exec_time add_time
prev_period job p period small =
    ap (λ t. add_time job.next (negate (sub_time t job.next))) period
    ∙ ap (λ d. add_time job.next (negate d)) (sub_period job.next p small)
    ∙ add_back job.next p

-- For a job with `skipIfSuccessful`, a schedule of the period `p` around its time, and a latest run
-- that was successful: the job is refused as finished if that run started in the minute of the
-- job's time or later, refused as successful if it started in the period before, and else started.
pub start_period :
    (job : DagJob) (latest : Latest) (p t : ℕ)
    → job.schedule (job.next + second) ≡ job.next + p
    → p ≤ max_duration
    → job.skip_if_successful ≡ true
    → latest.status ≡ Status.success
    → latest.started_at ≡ some t
    → start job (some latest) ≡ (
        if leb job.next (truncate_minute t)
        then refused job_finished
        else if leb (job.next - p) (truncate_minute t)
        then refused job_success
        else start_called)
unfolding start ready skip_if_success
start_period job latest p t period small skips success parsed =
    ground (arith, prev_period job p period small, success, parsed, skips)

-- The ticks of the daemon stand at whole minutes, each within a minute behind the one before.
pub next_tick_lem :
    (t : ℕ) → (next_tick t % minute ≡ 0) × (t < next_tick t) × (next_tick t ≤ t + minute)
unfolding next_tick truncate_minute
next_tick_lem t = (omega arith, omega arith, omega arith)

abbrev pub IsSorted : List DagJob → Type 0
IsSorted [] = Unit
IsSorted (job ∷ jobs) = All (λ k. job.next ≤ k.next) jobs × IsSorted jobs

abbrev pub filter_due : ℕ → List DagJob → List DagJob
filter_due now [] = []
filter_due now (job ∷ jobs) =
    if leb job.next now then job ∷ filter_due now jobs else filter_due now jobs

none_due :
    (now n : ℕ) (jobs : List DagJob)
    → All (λ (k : DagJob). n ≤ k.next) jobs
    → now < n
    → filter_due now jobs ≡ []
none_due now n [] h late = refl
none_due now n (job ∷ jobs) h late = ground (arith, h.0, none_due now n jobs h.1 late)

-- Of jobs in the order of their times, the loop of `run` invokes each whose time has come.
pub due-filter : (now : ℕ) (jobs : List DagJob) → IsSorted jobs → due now jobs ≡ filter_due now jobs
unfolding due
due-filter now [] h = refl
due-filter now (job ∷ jobs) h = elim (Bool-cases (ltb now job.next)) [
  | inl later ↦ ground (arith, none_due now job.next jobs h.0)
  | inr now_due ↦ ground (arith, due-filter now jobs h.1)
]

-- Where the daemon would start a workflow, a stop of it by the daemon is refused, since no run is
-- going on.
pub start_excludes_stop :
    (job : DagJob) (latest : Option Latest)
    → invoke (some job) type_start latest ≡ start_called
    → invoke (some job) type_stop latest ≡ refused job_is_not_running
unfolding invoke start stop
start_excludes_stop job none h = cc
start_excludes_stop job (some latest) h = elim (Bool-cases (is_running_status latest.status)) [
  | inl running ↦ absurd (ground (arith, running, h))
  | inr idle ↦ ground (arith, idle)
]
