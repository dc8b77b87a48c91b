-- ===== src/Persistence/History/Success.antt =====
-- Where the operating system refuses nothing, the writer and `Compact` give no error
-- (internal/persistence/jsondb).
use light_soar.Prelude.{
  ℕ, false, Option, none, some, [], ◌∷◌, Text, if◌then◌else◌, ◌≡◌, ◌≢◌, subst, refl, sym, ◌∙◌,
}
use light_soar.Persistence.Record.Defs.{RunRecord}
use light_soar.Persistence.History.Files.{
  Outside, Operation, HistoryError, gives, Disk, File, file_at, dir_exists, open_existing,
  mkdir_all, write_bytes, remove, remove_existing, rename, rename_existing,
}
use light_soar.Persistence.History.Writer.{
  Writer, new_writer, open_writer, open_after, opened, write, put_line, line_of, parse_status_file,
}
use light_soar.Persistence.History.Store.{
  and_then, about_file, written_temp, opened_temp, temp_path, replace_by, compact,
}
use light_soar.Persistence.History.Effects.{
  IsSameBut, IsReady, Leaves, Puts, content_of, open_writer-Leaves, write-Puts, remove_file_ne,
}

module _ (outside : Outside) where
  module _ (allowed : (o : Operation) (p : Text) → outside.denied o p ≡ false) where
    pub open_writer_succeeds :
        (now : ℕ) (name : Text) (disk : Disk)
        → (open_writer outside now (new_writer name) disk).2 ≡ none
    unfolding open_writer new_writer mkdir_all open_existing open_after file_at
    open_writer_succeeds now name disk =
        rw (allowed Operation.make_dir (outside.dir name)) (go made (file_at made name))
      where
        made : Disk
        made = record disk {
          dirs =
              if dir_exists disk (outside.dir name)
              then disk.dirs
              else outside.dir name ∷ disk.dirs;
        }

        go :
            (d : Disk) (o : Option File)
            → (opened (open_existing outside now name o d) (new_writer name)).2 ≡ none
        go d none = rw (allowed Operation.create_file name) refl
        go d (some f) = rw (allowed Operation.open_file name) refl

    pub write_succeeds :
        (now : ℕ) (st : RunRecord) (name content : Text) (w : Writer) (disk : Disk)
        → IsReady name content w
        → (write outside now st w disk).2 ≡ none
    unfolding write put_line write_bytes
    write_succeeds now st name content w disk ready =
        rw (ready.not_closed, ready.is_open, ready.not_broken)
          (rw (allowed Operation.write_file ready.handle.name) refl)

    module _ (now : ℕ) (target : Text) (st : RunRecord) (f : File) (disk : Disk)
        (apart : temp_path outside target ≢ target)
        (missing : file_at disk (temp_path outside target) ≡ none)
        (there : file_at disk target ≡ some f)
        (had : parse_status_file outside target disk ≡ gives st) where
      abbrev temp : Text
      temp = temp_path outside target

      unfoldable swap : Disk → Disk × Option HistoryError
      unfolding remove rename and_then about_file
      swap d =
          and_then (about_file target (remove outside target d))
            (λ d'. about_file target (rename outside temp target d'))

      swap_succeeds :
          (d : Disk) (g : File)
          → file_at d target ≡ some f
          → file_at d temp ≡ some g
          → (swap d).1 ≡ none
      unfolding swap remove rename remove_existing rename_existing and_then about_file
      swap_succeeds d g h k = rw h (
          rw (allowed Operation.remove_file target) (
            rw (remove_file_ne d target temp apart ∙ k)
              (rw (allowed Operation.rename_file temp) refl)))

      written_succeeds :
          (d : Disk)
          → IsSameBut temp disk d
          → (r : Disk × Writer × Option HistoryError) → Puts temp [] (line_of outside st) d r
          → r.2 ≡ none
          → (and_then (written_temp outside temp r) swap).1 ≡ none
      unfolding and_then written_temp
      written_succeeds d same (d', w, some e) h k = cc
      written_succeeds d same (d', w, none) (h, _) k =
          swap_succeeds d' h.file
            (h.others target (λ e. apart (sym e)) ∙ same target (λ e. apart (sym e)) ∙ there)
            h.there

      opened_succeeds :
          (r : Disk × Writer × Option HistoryError)
          → Leaves temp [] disk r
          → r.2 ≡ none
          → (and_then (opened_temp outside now temp st r) swap).1 ≡ none
      unfolding and_then opened_temp
      opened_succeeds (d, w, some e) h k = cc
      opened_succeeds (d, w, none) (h, ready) k =
          written_succeeds d h.others (write outside now st w d)
            (write-Puts outside now st temp [] w disk d h ready)
            (write_succeeds now st temp [] w d ready)

      pub compact_succeeds : (compact outside now target disk).1 ≡ none
      unfolding compact replace_by swap
      compact_succeeds =
          subst (λ o. (replace_by outside now target o disk).1 ≡ none) (sym had)
            (opened_succeeds (open_writer outside now (new_writer temp) disk)
              (subst
                (λ o.
                  Leaves temp (content_of o) disk (open_writer outside now (new_writer temp) disk))
                missing (open_writer-Leaves outside now temp disk))
              (open_writer_succeeds now temp disk))
