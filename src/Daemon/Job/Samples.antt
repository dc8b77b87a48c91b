-- ===== src/Daemon/Job/Samples.antt =====
-- A job for every ten minutes, at an hour past the zero time.
use light_soar.Prelude.{
  ℕ, ◌+◌, ◌-◌, ◌%◌, ◌≤◌, ◌<◌, ltb, true, none, some, List, [], ◌∷◌, if◌then◌else◌, ◌≡◌, ◌⊎◌, refl,
  arith,
}
use light_soar.Execution.Status.{Status}
use light_soar.Daemon.Job.Defs.{
  minute, truncate_minute, job_running, job_finished, job_success, DagJob, Latest, start_called,
  stop_called, refused, prev_exec_time, ready, start, invoke, type_stop, type_start,
  job_is_not_running, due, next_tick,
}
use light_soar.Daemon.Job.Once.{
  start_excludes_stop, start_once, next_tick_lem, IsSorted, filter_due, due-filter,
}

abbrev ten : ℕ
ten = 600_000_000_000

abbrev hour : ℕ
hour = 3_600_000_000_000

abbrev every_ten : ℕ → ℕ
every_ten t = t - t % ten + ten

abbrev job_at : ℕ → DagJob
job_at n = record { skip_if_successful = true; next = n; schedule = every_ten }

abbrev succeeded_at : ℕ → Latest
succeeded_at t = record { status = Status.success; started_at = some t }

program : Unit {0}
unfolding start ready prev_exec_time truncate_minute invoke due next_tick
program = tt

before : start (job_at hour) (some (succeeded_at (hour - ten - minute))) ≡ start_called
unfolding program
before = refl

within : start (job_at hour) (some (succeeded_at (hour - minute))) ≡ refused job_success
unfolding program
within = refl

stopping :
    invoke
      (some (job_at hour))
      type_stop
      (some (record { status = Status.running; started_at = none }))
    ≡ stop_called
unfolding program
stopping = refl

-- A schedule that leaves a gap before the job's time: the time before is taken to be the next gap
-- before it.
abbrev uneven : ℕ → ℕ
uneven t = if ltb t hour then hour else hour + minute

uneven_prev :
    prev_exec_time (record { skip_if_successful = true; next = hour; schedule = uneven })
    ≡ hour - minute
unfolding program
uneven_prev = refl

start_once_example :
    (start (job_at hour) (some (succeeded_at (hour + 5))) ≡ refused job_running)
    ⊎ (start (job_at hour) (some (succeeded_at (hour + 5))) ≡ refused job_finished)
start_once_example =
    start_once (job_at hour) (succeeded_at (hour + 5)) (hour + 5) refl refl (omega arith)

next_tick_lem_example : (next_tick 5 % minute ≡ 0) × (5 < next_tick 5) × (next_tick 5 ≤ 5 + minute)
next_tick_lem_example = next_tick_lem 5

abbrev two_jobs : List DagJob
two_jobs = job_at hour ∷ job_at (hour + ten) ∷ []

two_jobs-IsSorted : IsSorted two_jobs
two_jobs-IsSorted = ((omega arith, record {}), (record {}, record {}))

due-filter_example : due hour two_jobs ≡ filter_due hour two_jobs
due-filter_example = due-filter hour two_jobs two_jobs-IsSorted

invoked :
    invoke (some (job_at hour)) type_start (some (succeeded_at (hour - ten - minute)))
    ≡ start_called
unfolding program
invoked = refl

start_excludes_stop_example :
    invoke (some (job_at hour)) type_stop (some (succeeded_at (hour - ten - minute)))
    ≡ refused job_is_not_running
start_excludes_stop_example =
    start_excludes_stop (job_at hour) (some (succeeded_at (hour - ten - minute))) invoked
