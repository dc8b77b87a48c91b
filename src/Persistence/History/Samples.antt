-- ===== src/Persistence/History/Samples.antt =====
-- A history of two workflows, and the calls of `JSONDB` on it.
use light_soar.Prelude.{
  ℕ, ◌-◌, ◌+◌, ◌==◌, pos, true, false, not, ◌&&◌, Option, none, some, List, [], ◌∷◌, ◌++◌, Text,
  ascii, text_eq, if◌then◌else◌, ◌≡◌, ◌≢◌, refl, sym, ◌∙◌, true_ne_false, text_eq_iff, arith,
}
use light_soar.Command.Defs.{has_prefix}
use light_soar.Execution.Status.{Status}
use light_soar.Persistence.Record.Defs.{RunRecord}
use light_soar.Persistence.History.Files.{
  Outside, Operation, gives, Disk, File, take_text, drop_text, file_at,
}
use light_soar.Persistence.History.Writer.{parse_status_file}
use light_soar.Persistence.History.Defs.{
  JsonDb, StatusFile, generate_file_path, glob_pattern, filter_latest,
}
use light_soar.Persistence.History.Store.{
  older, temp_path, compact, update, find_by_request_id, remove_old,
}
use light_soar.Persistence.History.Parse.{read_bytes, parse_status_file-last_status}
use light_soar.Persistence.History.Written.{IsJson, ends_line}
use light_soar.Persistence.History.Compact.{Compacted, compact_keeps}
use light_soar.Persistence.History.Update.{Updated, update_finds}
use light_soar.Persistence.History.Session.{record_session}
use light_soar.Persistence.History.Recorded.{IsRecorded, record_session-IsRecorded}
use light_soar.Persistence.History.Remove.{file_at-remove_old}
use light_soar.Persistence.History.Store.{
  find_among, find_in, has_request_id, remove_among, remove_older, update_found, update_opened,
}
use light_soar.Persistence.History.Writer.{line_text, open_after, parse_opened, put_line, take_line}
use light_soar.Persistence.History.Files.{open_existing, remove_existing, remove_file_at}

program : Unit {0}
unfolding parse_status_file compact update find_by_request_id remove_old filter_latest ends_line
    file_at find_among find_in generate_file_path has_request_id line_text open_after open_existing
    parse_opened put_line remove_among remove_existing remove_file_at remove_older take_line
    update_found update_opened
program = tt

abbrev pub run_record : Status → Text → RunRecord
run_record status id = record {
  request_id = id;
  name = ascii "job";
  status = status;
  status_text = [];
  pid = pos 7;
  nodes = [];
  on_exit = none;
  on_success = none;
  on_failure = none;
  on_cancel = none;
  started_at = ascii "-";
  finished_at = ascii "-";
  log = [];
  params = [];
  params_list = [];
}

abbrev status_byte : Status → ℕ
status_byte Status.running = b'R'
status_byte _ = b'S'

abbrev decoded : Text → Option RunRecord
decoded [] = none
decoded (c ∷ s) = some (run_record (if c == b'R' then Status.running else Status.success) s)

abbrev parsed_digit : Text → Option ℕ
parsed_digit [] = none
parsed_digit (c ∷ s) = some (c - b'0')

-- A file system without directories, where the time in a name is one digit, and a status is written
-- as a letter and its request.
unfoldable pub history_outside : Outside
unfolding has_prefix take_text drop_text
history_outside = record {
  denied = λ o p. false;
  base = λ p. p;
  dir = λ p. ascii ".";
  ext = λ p. ascii ".dat";
  join_path = λ a b. b;
  is_abs = λ p. true;
  is_bad_pattern = λ p. false;
  matches = λ pattern p. has_prefix (ascii "job") p;
  to_json = λ st. status_byte st.status ∷ st.request_id;
  from_json = decoded;
  md5_hex = λ key. ascii "0";
  find_timestamp_text = λ p. take_text 2 (drop_text 4 p);
  format_utc = λ t. (b'0' + t) ∷ b'Z' ∷ [];
  parse_utc = parsed_digit;
  parse_old_format = λ t. none;
  days_before = λ now days. now - days;
  reaches = λ name text. 3;
  sweeps = λ name. [];
}

nothing_denied : (o : Operation) (p : Text) → history_outside.denied o p ≡ false
unfolding history_outside
nothing_denied o p = refl

abbrev pub old_path : Text
old_path = ascii "job.3Z.r0.dat"

abbrev pub old_file : File
old_file = record { content = ascii "Rr0" ++ b'\n' ∷ []; mod_time = 3 }

abbrev pub disk : Disk
disk = record {
  files =
      (
        ascii "job.2Z.rx.dat",
        record { content = ascii "Srx" ++ b'\r' ∷ b'\n' ∷ ascii "Sry"; mod_time = 2 },
      )
      ∷ (old_path, old_file)
      ∷ (ascii "other", old_file)
      ∷ [];
  dirs = [];
}

abbrev pub db : JsonDb
db = record {
  base_dir = ascii "data";
  latest_status_today = true;
  file_cache = none;
  writer = none;
}

parse_status_file-last_status_example :
    parse_status_file history_outside (ascii "job.2Z.rx.dat") disk
    ≡ read_bytes history_outside (file_at disk (ascii "job.2Z.rx.dat"))
parse_status_file-last_status_example =
    parse_status_file-last_status history_outside (ascii "job.2Z.rx.dat") disk

reads_last :
    parse_status_file history_outside (ascii "job.2Z.rx.dat") disk
    ≡ gives (run_record Status.success (ascii "ry"))
unfolding program history_outside
reads_last = refl

done_json : IsJson history_outside (run_record Status.success (ascii "r0"))
unfolding program history_outside
done_json = record { reads = refl; one_line = refl; no_return = refl; some_bytes = ground arith }

pub ne_of_test : (s t : Text) → text_eq s t ≡ false → s ≢ t
ne_of_test s t h e = true_ne_false (sym ((text_eq_iff s t).1 e) ∙ h)

temp_apart : temp_path history_outside old_path ≢ old_path
unfolding program history_outside
temp_apart = ne_of_test (temp_path history_outside old_path) old_path refl

temp_missing : file_at disk (temp_path history_outside old_path) ≡ none
unfolding program history_outside
temp_missing = refl

had :
    parse_status_file history_outside old_path disk ≡ gives (run_record Status.running (ascii "r0"))
unfolding program history_outside
had = refl

running_json : IsJson history_outside (run_record Status.running (ascii "r0"))
unfolding program history_outside
running_json = record { reads = refl; one_line = refl; no_return = refl; some_bytes = ground arith }

compact_keeps_example :
    Compacted history_outside old_path
      (run_record Status.running (ascii "r0"))
      disk
      (compact history_outside 9 old_path disk)
compact_keeps_example =
    compact_keeps history_outside 9 old_path (run_record Status.running (ascii "r0")) running_json
      disk temp_apart temp_missing had

abbrev found_file : StatusFile
found_file = record { file = old_path; status = run_record Status.running (ascii "r0") }

was_found : find_by_request_id history_outside db (ascii "job") (ascii "r0") disk ≡ gives found_file
unfolding program history_outside
was_found = refl

pub was_there : file_at disk old_path ≡ some old_file
unfolding program history_outside
was_there = refl

pub ended : ends_line old_file.content ≡ true
unfolding program history_outside
ended = refl

update_finds_example :
    Updated history_outside db
      (ascii "job")
      (run_record Status.success (ascii "r0"))
      found_file
      (ascii "r0")
      disk
      (update history_outside 9 db
        (ascii "job")
        (ascii "r0")
        (run_record Status.success (ascii "r0"))
        disk)
update_finds_example =
    update_finds history_outside 9 db (ascii "job") (ascii "r0")
      (run_record Status.success (ascii "r0")) done_json disk found_file old_file was_found
      was_there ended refl

update_gives_no_error :
    (update history_outside 9 db
      (ascii "job")
      (ascii "r0")
      (run_record Status.success (ascii "r0"))
      disk).2
    ≡ none
unfolding program history_outside
update_gives_no_error = refl

abbrev pub new_path : Text
new_path = ascii "job.5Z.r0.dat"

named : generate_file_path history_outside db (ascii "job") 5 (ascii "r0") ≡ gives new_path
unfolding program history_outside
named = refl

new_missing : file_at disk new_path ≡ none
unfolding program history_outside
new_missing = refl

new_temp_apart : temp_path history_outside new_path ≢ new_path
unfolding program history_outside
new_temp_apart = ne_of_test (temp_path history_outside new_path) new_path refl

new_temp_missing : file_at disk (temp_path history_outside new_path) ≡ none
unfolding program history_outside
new_temp_missing = refl

record_session-IsRecorded_example :
    IsRecorded history_outside nothing_denied 9 new_path disk
      (run_record Status.success (ascii "r0"))
      done_json
      new_temp_apart
      new_temp_missing
      (record_session history_outside 9 db
        (ascii "job")
        5
        (ascii "r0")
        (run_record Status.running (ascii "r0") ∷ run_record Status.success (ascii "r0") ∷ [])
        disk)
record_session-IsRecorded_example =
    record_session-IsRecorded history_outside nothing_denied 9 new_path disk
      (run_record Status.success (ascii "r0")) done_json new_temp_apart new_temp_missing db
      (ascii "job") 5 (ascii "r0") named new_missing (run_record Status.running (ascii "r0") ∷ [])

abbrev paths : List Text
paths = ascii "job.2Z.rx.dat" ∷ ascii "job.9Z.ry.dat" ∷ old_path ∷ []

file_at-remove_old_example :
    file_at (remove_old history_outside 9 db (ascii "job") (pos 6) disk).0 (ascii "job.2Z.rx.dat")
    ≡ (if history_outside.matches
            (glob_pattern history_outside db (ascii "job"))
            (ascii "job.2Z.rx.dat")
          && older (history_outside.days_before 9 6) (file_at disk (ascii "job.2Z.rx.dat"))
          && not (history_outside.denied Operation.remove_file (ascii "job.2Z.rx.dat"))
        then none
        else file_at disk (ascii "job.2Z.rx.dat"))
unfolding history_outside
file_at-remove_old_example =
    file_at-remove_old history_outside 9 db (ascii "job") 6 disk (ascii "job.2Z.rx.dat") refl

removes_old_file :
    file_at (remove_old history_outside 9 db (ascii "job") (pos 6) disk).0 (ascii "job.2Z.rx.dat")
    ≡ none
unfolding program history_outside
removes_old_file = refl
