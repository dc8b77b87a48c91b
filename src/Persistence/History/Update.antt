-- ===== src/Persistence/History/Update.antt =====
-- `Update` of `JSONDB` (internal/persistence/jsondb/jsondb.go) and the search for a request.
use mathlib.Core.List.{append-nil}
use light_soar.Prelude.{
  ℕ, true, Bool-cases, Option, none, some, List, [], ◌∷◌, ◌++◌, Text, text_eq, text_eq_iff, if_ind,
  ◌≡◌, ◌≢◌, subst, inl, inr, refl, sym, ap, ◌∙◌,
}
use light_soar.Digraph.Variables.{store, load}
use light_soar.Persistence.Record.Defs.{RunRecord}
use light_soar.Persistence.History.Files.{
  Outside, Operation, HistoryError, Attempt, gives, Disk, File, Handle, file_at, set_file, written,
  open_existing, write_to, write_part, take_text,
}
use light_soar.Persistence.History.Writer.{
  Writer, new_writer, open_writer, open_after, opened, write, put_line, line_of,
}
use light_soar.Persistence.History.Defs.{JsonDb, StatusFile, names_of}
use light_soar.Persistence.History.Store.{
  find_by_request_id, update_opened, update_found, update, forget,
}
use light_soar.Persistence.History.Written.{IsJson, ends_line, last_status-line_of}
use light_soar.Persistence.History.Effects.{
  IsWritten, Leaves, content_of, open_writer-Leaves, write-Puts, IsPartly, Puts,
}
use light_soar.Persistence.History.Compact.{parse_content}
use light_soar.Persistence.History.Find.{SameNames, find_by_request_id-updated}

names_of-store :
    (files : List (Text × File)) (name : Text) (f g : File)
    → load files name ≡ some f
    → names_of (store files name g) ≡ names_of files
unfolding load store
names_of-store [] name f g h = cc
names_of-store ((n, e) ∷ files) name f g h = elim (Bool-cases (text_eq n name)) [
  | inl here ↦ rw here (ap (λ m. m ∷ names_of files) (sym ((text_eq_iff n name).0 here)))
  | inr later ↦ rw later (ap (λ ms. n ∷ ms) (names_of-store files name f g (rw later at h)))
]

module _ (outside : Outside) where
  open_writer-SameNames :
      (now : ℕ) (name : Text) (f : File) (disk : Disk)
      → file_at disk name ≡ some f
      → SameNames disk (open_writer outside now (new_writer name) disk).0
  unfolding open_writer new_writer open_after open_existing file_at
  open_writer-SameNames now name f disk h =
      if_ind (λ r. SameNames disk (open_after outside now r (new_writer name)).0)
        (outside.denied Operation.make_dir (outside.dir name)) refl
        (rw h (
          if_ind (λ (r : Disk × Attempt Handle). SameNames disk (opened r (new_writer name)).0)
            (outside.denied Operation.open_file name) refl refl))

  write-SameNames :
      (now : ℕ) (st : RunRecord) (w : Writer) (disk : Disk)
      → SameNames disk (write outside now st w disk).0
  unfolding write write_to write_part file_at set_file put_line
  write-SameNames now st w disk =
      if_ind (λ (r : Disk × Writer × Option HistoryError). SameNames disk r.0) w.closed refl
        (go w.file)
    where
      put :
          (h : Handle) (text : Text) (o : Option File)
          → file_at disk h.name ≡ o
          → SameNames disk (write_to now h text o disk)
      put h text none e = refl
      put h text (some f) e =
          names_of-store disk.files h.name f
            (record { content = written h text f.content; mod_time = now }) e

      part :
          (h : Handle) (text : Text)
          → SameNames disk (write_part now h text (file_at disk h.name) disk)
      part h [] = refl
      part h (c ∷ text) = put h (c ∷ text) (file_at disk h.name) refl

      go : (o : Option Handle) → SameNames disk (put_line outside now st o w disk).0
      go none = refl
      go (some h) =
          if_ind (λ (r : Disk × Handle × Option HistoryError). SameNames disk r.0) h.broken refl
            (if_ind (λ (r : Disk × Handle × Option HistoryError). SameNames disk r.0)
              (outside.denied Operation.write_file h.name)
              (part h
                (take_text (outside.reaches h.name (line_of outside st)) (line_of outside st)))
              (put h (line_of outside st) (file_at disk h.name) refl))

  -- After success the request is found with the new status, in the same file, and no other file is
  -- changed; after an error no other file is changed, and the file has the content that it had and
  -- behind it a part of the line of the new status, often nothing of it.
  abbrev pub Updated :
      JsonDb
      → Text
      → RunRecord
      → StatusFile
      → Text
      → Disk
      → Disk × JsonDb × Option HistoryError
      → Type 0
  Updated db key st f id disk (disk', db', some e) =
      IsPartly f.file (content_of (file_at disk f.file)) (line_of outside st) disk disk'
  Updated db key st f id disk (disk', db', none) =
      (find_by_request_id outside db key id disk' ≡ gives (record { file = f.file; status = st }))
      × ((p : Text) → p ≢ f.file → file_at disk' p ≡ file_at disk p)

  module _ (now : ℕ) (db : JsonDb) (key id : Text) (st : RunRecord) (json : IsJson outside st)
      (disk : Disk) (f : StatusFile) (old : File)
      (was_found : find_by_request_id outside db key id disk ≡ gives f)
      (was_there : file_at disk f.file ≡ some old) (ended : ends_line old.content ≡ true)
      (named : st.request_id ≡ id) where
    written-Updated :
        (d : Disk)
        → IsWritten f.file old.content disk d
        → SameNames disk d
        → (r : Disk × Writer × Option HistoryError)
        → Puts f.file old.content (line_of outside st) d r
        → SameNames d r.0
        → Updated db key st f id disk (r.0, forget f.file db, r.2)
    written-Updated d w names (d', w', some e) h names' = record {
      others = λ p k. h.others p k ∙ w.others p k;
      part = h.part;
      holds =
          h.holds
          ∙ ap (λ t. t ++ take_text h.part (line_of outside st)) (sym (ap content_of was_there));
    }
    written-Updated d w names (d', w', none) (h, ready) names' = (
      find_by_request_id-updated outside db key id disk d' f st was_found (names' ∙ names)
          (λ p k. h.others p k ∙ w.others p k)
          (parse_content outside f.file (old.content ++ line_of outside st) d d' st h
            (last_status-line_of outside st json old.content none ended))
          named,
      λ p k. h.others p k ∙ w.others p k,
    )

    opened-Updated :
        (r : Disk × Writer × Option HistoryError)
        → Leaves f.file old.content disk r
        → SameNames disk r.0
        → Updated db key st f id disk (update_opened outside now f.file st db r)
    unfolding update_opened write take_text
    opened-Updated (d, w, some e) h names = record {
      others = λ p _. h p;
      part = 0;
      holds = ap content_of (h f.file) ∙ sym (append-nil (content_of (file_at disk f.file)));
    }
    opened-Updated (d, w, none) (h, ready) names =
        written-Updated d h names (write outside now st w d)
          (write-Puts outside now st f.file old.content w disk d h ready)
          (write-SameNames now st w d)

    -- `Update` of a request that is found, with a status of this request: after success the request is
    -- found with the new status in the same file, and no other file is changed; after an error no other
    -- file is changed either, and the file has its content and behind it nothing or a part of the line
    -- that was to be written. The file's last line is ended, and JSON of the status is one line that is
    -- read back.
    pub update_finds : Updated db key st f id disk (update outside now db key id st disk)
    unfolding update_found update_opened update find_by_request_id
    update_finds =
        subst (λ o. Updated db key st f id disk (update_found outside now st o db disk))
          (sym was_found)
          (opened-Updated (open_writer outside now (new_writer f.file) disk)
            (subst
              (λ o.
                Leaves f.file (content_of o) disk
                  (open_writer outside now (new_writer f.file) disk))
              was_there (open_writer-Leaves outside now f.file disk))
            (open_writer-SameNames now f.file old disk was_there))
