-- ===== src/Digraph/Builder/Schedules.antt =====
-- `buildSchedule`, and `parseScheduleMap` and `buildScheduler` of internal/digraph/schedule.go.
use light_soar.Prelude.{
  ℕ, Option, none, some, List, [], ◌∷◌, ◌++◌, if◌then◌else◌, Text, ascii, text_eq,
}
use light_soar.Digraph.Value.{Value, null, str, arr, obj, Entries, end, entry}
use light_soar.Digraph.Builder.Fields.{string_elements}
use light_soar.Digraph.Builder.Result.{
  Outside, BuildErr, wrapped, Result, ok, err, panic, ◌>>=◌, or_error, invalid_schedule,
  schedule_must_be_string_or_array, invalid_schedule_type, schedule_key_must_be_string,
}

pub record Schedule : Type 0 where
  pub expression : Text
  pub parsed : ℕ → ℕ

abbrev schedule_of : Text → Option (ℕ → ℕ) → Result Schedule
schedule_of v none = err invalid_schedule
schedule_of v (some p) = ok (record { expression = v; parsed = p })

-- `buildScheduler`
unfoldable pub build_scheduler : Outside → List Text → Result (List Schedule)
build_scheduler out [] = ok []
build_scheduler out (v ∷ vs) = do
  s ← schedule_of v (out.cron v)
  ss ← build_scheduler out vs
  ok (s ∷ ss)

-- The slices that `parseScheduleMap` fills.
pub record Slices : Type 0 where
  pub starts : List Text
  pub stops : List Text
  pub restarts : List Text

abbrev in_schedule : Value → BuildErr → BuildErr
in_schedule = wrapped (ascii "schedule")

-- The values under a key. The error about an element holds the empty text, since the assertion has
-- failed; a value of another type gives none.
abbrev pub key_values : Value → Result (List Text)
key_values (str v) = ok (v ∷ [])
key_values (arr vs) =
    or_error (string_elements vs) (in_schedule (str []) schedule_must_be_string_or_array)
key_values _ = ok []

pub data Target : Type 0 where
  to_starts to_stops to_restarts no_target : Target

-- `switch scheduleKey(key)`; another key leaves the pointer nil.
unfoldable pub target_of : Text → Target
unfolding text_eq
target_of key =
    if text_eq key (ascii "start")
    then to_starts
    else if text_eq key (ascii "stop")
    then to_stops
    else if text_eq key (ascii "restart")
    then to_restarts
    else no_target

abbrev pub append_to : Target → Text → Slices → Result Slices
append_to to_starts v s = ok (record s { starts = s.starts ++ v ∷ [] })
append_to to_stops v s = ok (record s { stops = s.stops ++ v ∷ [] })
append_to to_restarts v s = ok (record s { restarts = s.restarts ++ v ∷ [] })
append_to no_target v s = panic

abbrev pub check_cron : Text → Option (ℕ → ℕ) → Result (ℕ → ℕ)
check_cron v none = err (in_schedule (str v) invalid_schedule)
check_cron v (some p) = ok p

unfoldable pub append_all : Outside → Target → List Text → Slices → Result Slices
append_all out t [] s = ok s
append_all out t (v ∷ vs) s = do
  _ ← check_cron v (out.cron v)
  s' ← append_to t v s
  append_all out t vs s'

-- `parseScheduleMap`
unfoldable pub parse_schedule_map : Outside → Entries → Slices → Result Slices
unfolding append_all target_of string_elements
parse_schedule_map out end s = ok s
parse_schedule_map out (entry (str key) v es) s = do
  values ← key_values v
  s' ← append_all out (target_of key) values s
  parse_schedule_map out es s'
parse_schedule_map out (entry k v es) s = err (in_schedule k schedule_key_must_be_string)

abbrev pub no_slices : Slices
no_slices = record { starts = []; stops = []; restarts = [] }

unfoldable pub schedule_slices : Outside → Value → Result Slices
unfolding parse_schedule_map string_elements
schedule_slices out (str s) = ok (record no_slices { starts = s ∷ [] })
schedule_slices out (arr vs) = do
  ss ← or_error (string_elements vs) (in_schedule (str []) schedule_must_be_string_or_array)
  ok (record no_slices { starts = ss })
schedule_slices out (obj es) = parse_schedule_map out es no_slices
schedule_slices out null = ok no_slices
schedule_slices out v = err (in_schedule v invalid_schedule_type)

-- The three schedules of a workflow.
pub record Schedules : Type 0 where
  pub start : List Schedule
  pub stop : List Schedule
  pub restart : List Schedule

-- `buildSchedule`
unfoldable pub build_schedule : Outside → Value → Result Schedules
unfolding schedule_slices build_scheduler
build_schedule out v = do
  s ← schedule_slices out v
  starts ← build_scheduler out s.starts
  stops ← build_scheduler out s.stops
  restarts ← build_scheduler out s.restarts
  ok (record { start = starts; stop = stops; restart = restarts })
