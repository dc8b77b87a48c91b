-- ===== src/Persistence/History/Compact.antt =====
-- `Compact` of `JSONDB` (internal/persistence/jsondb/jsondb.go) keeps the status of the run.
use light_soar.Prelude.{
  ℕ, Option, none, some, [], Text, if_ind, ◌≡◌, ◌≢◌, ◌⊎◌, subst, inl, inr, refl, sym, ap, ◌∙◌,
}
use light_soar.Persistence.Record.Defs.{RunRecord}
use light_soar.Persistence.History.Files.{
  Outside, Operation, HistoryError, gives, Disk, File, file_at, remove_file_at, remove,
  remove_existing, rename, rename_existing,
}
use light_soar.Persistence.History.Writer.{
  Writer, new_writer, open_writer, write, line_of, parsed, parse_status_file,
}
use light_soar.Persistence.History.Store.{
  and_then, about_file, undone, written_temp, opened_temp, temp_path, replace_by, compact,
}
use light_soar.Persistence.History.Parse.{last_status, read_bytes, parse_status_file-last_status}
use light_soar.Persistence.History.Written.{IsJson, ends_line, last_status-line_of}
use light_soar.Persistence.History.Effects.{
  IsSameBut, IsWritten, Leaves, Puts, content_of, open_writer-Leaves, write-Puts, set_file_self,
  set_file_ne, remove_file_self, remove_file_ne,
}

module _ (outside : Outside) where
  -- What is read from a file depends on the file alone.
  pub parse_same :
      (name name' : Text) (disk disk' : Disk)
      → file_at disk' name' ≡ file_at disk name
      → parse_status_file outside name' disk' ≡ parse_status_file outside name disk
  parse_same name name' disk disk' h =
      parse_status_file-last_status outside name' disk'
      ∙ ap (read_bytes outside) h
      ∙ sym (parse_status_file-last_status outside name disk)

  pub parse_content :
      (name content : Text) (disk disk' : Disk) (st : RunRecord)
      → IsWritten name content disk disk'
      → last_status outside [] none content ≡ some st
      → parse_status_file outside name disk' ≡ gives st
  unfolding read_bytes
  parse_content name content disk disk' st w h =
      parse_status_file-last_status outside name disk'
      ∙ ap (read_bytes outside) w.there
      ∙ ap (λ s. parsed (last_status outside [] none s)) w.holds
      ∙ ap parsed h

  abbrev pub IsKept : Text → RunRecord → Disk → Disk → Type 0
  IsKept target st disk disk' =
      ((parse_status_file outside target disk' ≡ gives st)
        ⊎ (parse_status_file outside (temp_path outside target) disk' ≡ gives st))
      × ((p : Text) → p ≢ target → p ≢ temp_path outside target → file_at disk' p ≡ file_at disk p)

  -- After success the file has the status, and the file that was written meanwhile is gone; after an
  -- error one of the two has it. No other file is changed.
  abbrev pub Compacted : Text → RunRecord → Disk → Disk × Option HistoryError → Type 0
  Compacted target st disk (disk', none) =
      (parse_status_file outside target disk' ≡ gives st)
      × (file_at disk' (temp_path outside target) ≡ none)
      × ((p : Text) → p ≢ target → p ≢ temp_path outside target → file_at disk' p ≡ file_at disk p)
  Compacted target st disk (disk', some e) = IsKept target st disk disk'

  module _ (now : ℕ) (target : Text) (st : RunRecord) (json : IsJson outside st) (disk : Disk)
      (apart : temp_path outside target ≢ target)
      (missing : file_at disk (temp_path outside target) ≡ none)
      (had : parse_status_file outside target disk ≡ gives st) where
    abbrev temp : Text
    temp = temp_path outside target

    abbrev swap : Disk → Disk × Option HistoryError
    unfolding remove rename
    swap disk' =
        and_then (about_file target (remove outside target disk'))
          (λ disk''. about_file target (rename outside temp target disk''))

    kept : (disk' : Disk) → IsSameBut temp disk disk' → IsKept target st disk disk'
    kept disk' same = (
      inl (parse_same target target disk disk' (same target (λ h. apart (sym h))) ∙ had),
      λ p h k. same p k,
    )

    temp_reads :
        (disk' : Disk)
        → IsWritten temp (line_of outside st) disk disk'
        → parse_status_file outside temp disk' ≡ gives st
    unfolding ends_line
    temp_reads disk' w =
        parse_content temp (line_of outside st) disk disk' st w
          (last_status-line_of outside st json [] none refl)

    renamed-Compacted :
        (disk' : Disk)
        → IsWritten temp (line_of outside st) disk disk'
        → Compacted target st disk
            (about_file target (rename outside temp target (remove_file_at disk' target)))
    unfolding about_file rename_existing rename file_at
    renamed-Compacted disk' w =
        subst
          (λ o. Compacted target st disk (
            about_file target
              (rename_existing outside temp target o (remove_file_at disk' target))))
          (sym (remove_file_ne disk' target temp apart ∙ w.there))
          (if_ind
            (λ (r : Disk × Option HistoryError). Compacted target st disk (about_file target r))
            (outside.denied Operation.rename_file temp)
            (
              inr (
                  parse_same temp temp disk' _ (remove_file_ne disk' target temp apart)
                  ∙ temp_reads disk' w),
              λ p h k. remove_file_ne disk' target p h ∙ w.others p k,
            )
            (
              parse_same temp target disk' _ (set_file_self _ target w.file ∙ sym w.there)
                  ∙ temp_reads disk' w,
              set_file_ne _ target w.file temp apart ∙ remove_file_self _ temp,
              λ p h k.
                  set_file_ne _ target w.file p h
                  ∙ remove_file_ne _ temp p k
                  ∙ remove_file_ne disk' target p h
                  ∙ w.others p k,
            ))

    swap-Compacted :
        (disk' : Disk)
        → IsWritten temp (line_of outside st) disk disk'
        → Compacted target st disk (swap disk')
    unfolding and_then about_file remove_existing swap file_at
    swap-Compacted disk' w = go (file_at disk' target)
      where
        stays : IsKept target st disk disk'
        stays = (inr (temp_reads disk' w), λ p h k. w.others p k)

        go :
            (o : Option File)
            → Compacted target st disk (
                and_then
                  (about_file target (remove_existing outside target o disk'))
                  (λ disk''. about_file target (rename outside temp target disk'')))
        go none = stays
        go (some f) =
            if_ind
              (λ (r : Disk × Option HistoryError). Compacted target st disk (
                and_then (about_file target r)
                  (λ disk''. about_file target (rename outside temp target disk''))))
              (outside.denied Operation.remove_file target) (stays) (renamed-Compacted disk' w)

    written-Compacted :
        (disk' : Disk)
        → IsSameBut temp disk disk'
        → (r : Disk × Writer × Option HistoryError) → Puts temp [] (line_of outside st) disk' r
        → Compacted target st disk (and_then (written_temp outside temp r) swap)
    unfolding and_then swap written_temp about_file remove_existing
    written-Compacted disk' same (d, w, some e) h = go (file_at d temp)
      where
        go :
            (o : Option File)
            → Compacted target st disk
                (and_then (undone temp e (remove_existing outside temp o d)) swap)
        go none = kept d (λ p k. h.others p k ∙ same p k)
        go (some f) =
            if_ind
              (λ (r : Disk × Option HistoryError).
                Compacted target st disk (and_then (undone temp e r) swap))
              (outside.denied Operation.remove_file temp) (kept d (λ p k. h.others p k ∙ same p k))
              (kept (remove_file_at d temp)
                (λ p k. remove_file_ne d temp p k ∙ h.others p k ∙ same p k))
    written-Compacted disk' same (d, w, none) (h, _) = swap-Compacted d (record {
      file = h.file;
      there = h.there;
      holds = h.holds;
      others = λ p k. h.others p k ∙ same p k;
    })

    opened-Compacted :
        (r : Disk × Writer × Option HistoryError)
        → Leaves temp [] disk r
        → Compacted target st disk (and_then (opened_temp outside now temp st r) swap)
    unfolding opened_temp written_temp and_then
    opened-Compacted (d, w, some e) h = kept d (λ p _. h p)
    opened-Compacted (d, w, none) (h, ready) =
        written-Compacted d h.others (write outside now st w d)
          (write-Puts outside now st temp [] w disk d h ready)

    -- Whatever the operating system refuses, `Compact` of a file of which a status can be read leaves
    -- this status readable: in the file after success, and in the file or in the one that was written
    -- to replace it after an error. No other file is changed, and after success the second one is gone.
    -- It is not there before and has another name, and JSON of the status is one line that is read back.
    pub compact_keeps : Compacted target st disk (compact outside now target disk)
    unfolding replace_by and_then compact parse_status_file
    compact_keeps =
        subst (λ o. Compacted target st disk (replace_by outside now target o disk)) (sym had)
          (opened-Compacted (open_writer outside now (new_writer temp) disk) (
            subst
              (λ o.
                Leaves temp (content_of o) disk (open_writer outside now (new_writer temp) disk))
              missing (open_writer-Leaves outside now temp disk)))
