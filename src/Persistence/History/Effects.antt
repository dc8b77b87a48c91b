-- ===== src/Persistence/History/Effects.antt =====
-- What the writer of internal/persistence/jsondb/writer.go leaves of the files.
use mathlib.Core.List.{append-nil}
use light_soar.Prelude.{
  ℕ, false, Bool-cases, Option, none, some, [], ◌++◌, Text, text_eq, text_eq→eq, text_eq_refl,
  if_ind, if_split, subst, ◌≡◌, ◌≢◌, inl, inr, refl, sym, ap, ◌∙◌, ◌∷◌,
}
use light_soar.Digraph.Variables.{load-store, load-delete}
use light_soar.Persistence.Record.Defs.{RunRecord}
use light_soar.Persistence.History.Files.{
  write_to, Outside, Operation, HistoryError, Disk, File, Handle, written, file_at, set_file,
  remove_file_at, open_existing, take_text, write_part,
}
use light_soar.Persistence.History.Writer.{
  Writer, new_writer, open_writer, open_after, opened, write, put_line, line_of,
}
use light_soar.Persistence.History.Written.{IsAtEnd, IsAtEnd-written, written-at_end}

text_ne : (s t : Text) → s ≢ t → text_eq s t ≡ false
text_ne s t h = elim (Bool-cases (text_eq s t)) [
  | inl same ↦ absurd (h (text_eq→eq s t same))
  | inr other ↦ other
]

module _ (disk : Disk) (name : Text) where
  pub set_file_self : (f : File) → file_at (set_file disk name f) name ≡ some f
  unfolding file_at set_file
  set_file_self f = load-store disk.files name f name ∙ rw (text_eq_refl name) refl

  pub set_file_ne :
      (f : File) (p : Text) → p ≢ name → file_at (set_file disk name f) p ≡ file_at disk p
  unfolding file_at set_file
  set_file_ne f p h = load-store disk.files name f p ∙ rw (text_ne name p (λ e. h (sym e))) refl

  pub remove_file_self : file_at (remove_file_at disk name) name ≡ none
  unfolding file_at remove_file_at
  remove_file_self = load-delete disk.files name name ∙ rw (text_eq_refl name) refl

  pub remove_file_ne : (p : Text) → p ≢ name → file_at (remove_file_at disk name) p ≡ file_at disk p
  unfolding file_at remove_file_at
  remove_file_ne p h = load-delete disk.files name p ∙ rw (text_ne name p (λ e. h (sym e))) refl

abbrev pub content_of : Option File → Text
content_of none = []
content_of (some f) = f.content

abbrev pub IsSame : Disk → Disk → Type 0
IsSame disk disk' = (p : Text) → file_at disk' p ≡ file_at disk p

abbrev pub IsSameBut : Text → Disk → Disk → Type 0
IsSameBut name disk disk' = (p : Text) → p ≢ name → file_at disk' p ≡ file_at disk p

-- The file is there with this content, and all else is as before.
pub record IsWritten (name content : Text) (disk disk' : Disk) : Type 0 where
  pub file : File
  pub there : file_at disk' name ≡ some file
  pub holds : file.content ≡ content
  pub others : IsSameBut name disk disk'

-- A writer whose next write goes behind the content of its file.
pub record IsReady (name content : Text) (w : Writer) : Type 0 where
  pub handle : Handle
  pub is_open : w.file ≡ some handle
  pub named : handle.name ≡ name
  pub at_end : IsAtEnd handle content
  pub not_closed : w.closed ≡ false
  pub not_broken : handle.broken ≡ false

-- After a call that gave an error the files are as before; after one that gave none, the file has the
-- content, and the writer is ready.
abbrev pub Leaves : Text → Text → Disk → Disk × Writer × Option HistoryError → Type 0
Leaves name content disk (disk', w, some e) = IsSame disk disk'
Leaves name content disk (disk', w, none) =
    IsWritten name content disk disk' × IsReady name content w

-- All but this file is as before, and it has the content and behind it a part of the text.
pub record IsPartly (name content text : Text) (disk disk' : Disk) : Type 0 where
  pub others : IsSameBut name disk disk'
  pub part : ℕ
  pub holds : content_of (file_at disk' name) ≡ content ++ take_text part text

-- After a write that gave none, the file has the text behind its content, and the writer is ready;
-- after one that gave an error it has a part of the text there.
abbrev pub Puts : Text → Text → Text → Disk → Disk × Writer × Option HistoryError → Type 0
Puts name content text disk (disk', w, some e) = IsPartly name content text disk disk'
Puts name content text disk (disk', w, none) =
    IsWritten name (content ++ text) disk disk' × IsReady name (content ++ text) w

write_part-IsPartly :
    (now : ℕ) (h : Handle) (k : ℕ) (text content part : Text) (f : File) (disk : Disk)
    → take_text k text ≡ part
    → file_at disk h.name ≡ some f
    → f.content ≡ content
    → IsAtEnd h content
    → IsPartly h.name content text disk (write_part now h part (file_at disk h.name) disk)
unfolding write_part write_to
write_part-IsPartly now h k text content [] f disk e there holds at_end = record {
  others = λ p q. refl;
  part = k;
  holds = ap content_of there ∙ holds ∙ sym (append-nil content) ∙ sym (ap (λ t. content ++ t) e);
}
write_part-IsPartly now h k text content (c ∷ part) f disk e there holds at_end = rw there (record {
  others = λ p q. set_file_ne disk h.name _ p q;
  part = k;
  holds =
      ap content_of (set_file_self disk h.name _)
      ∙ ap (written h (c ∷ part)) holds
      ∙ written-at_end h (c ∷ part) content at_end
      ∙ sym (ap (λ t. content ++ t) e);
})

module _ (outside : Outside) where
  pub open_writer-Leaves :
      (now : ℕ) (name : Text) (disk : Disk)
      → Leaves name
          (content_of (file_at disk name))
          disk
          (open_writer outside now (new_writer name) disk)
  unfolding open_writer new_writer open_existing open_after file_at
  open_writer-Leaves now name disk =
      if_ind
        (λ r.
          Leaves name (content_of (file_at disk name)) disk
            (open_after outside now r (new_writer name)))
        (outside.denied Operation.make_dir (outside.dir name)) (λ p. refl)
        (go _ (λ p. refl) (file_at disk name) refl)
    where
      go :
          (disk' : Disk)
          → IsSame disk disk'
          → (o : Option File) → file_at disk name ≡ o
          → Leaves name
              (content_of o)
              disk
              (opened (open_existing outside now name o disk') (new_writer name))
      go disk' same none e =
          if_ind (λ r. Leaves name [] disk (opened r (new_writer name)))
            (outside.denied Operation.create_file name) same
            (
              record {
                file = record { content = []; mod_time = now };
                there = set_file_self disk' name _;
                holds = refl;
                others = λ p h. set_file_ne disk' name _ p h ∙ same p;
              },
              record {
                handle = _;
                is_open = refl;
                named = refl;
                at_end = inr refl;
                not_closed = refl;
                not_broken = refl;
              },
            )
      go disk' same (some f) e =
          if_ind (λ r. Leaves name f.content disk (opened r (new_writer name)))
            (outside.denied Operation.open_file name) same
            (
              record { file = f; there = same name ∙ e; holds = refl; others = λ p h. same p },
              record {
                handle = _;
                is_open = refl;
                named = refl;
                at_end = inl refl;
                not_closed = refl;
                not_broken = refl;
              },
            )

  pub write-Puts :
      (now : ℕ) (st : RunRecord) (name content : Text) (w : Writer) (disk disk' : Disk)
      → IsWritten name content disk disk'
      → IsReady name content w
      → Puts name content (line_of outside st) disk' (write outside now st w disk')
  unfolding write put_line write_to set_file
  write-Puts now st name content w disk disk' before ready =
      if_split (Puts name content (line_of outside st) disk') w.closed
        (λ closed. absurd (cc (closed, ready.not_closed)))
        (λ _.
          subst
            (λ o. Puts name content (line_of outside st) disk' (put_line outside now st o w disk'))
            (sym ready.is_open)
            (subst
              (λ n.
                Puts n content (line_of outside st) disk'
                  (put_line outside now st (some ready.handle) w disk'))
              ready.named
              (go ready.handle before.file (ap (file_at disk') ready.named ∙ before.there)
                before.holds ready.at_end ready.not_closed ready.not_broken)))
    where
      go :
          (h : Handle) (f : File)
          → file_at disk' h.name ≡ some f
          → f.content ≡ content
          → IsAtEnd h content
          → w.closed ≡ false
          → h.broken ≡ false
          → Puts h.name content
              (line_of outside st)
              disk'
              (put_line outside now st (some h) w disk')
      go h f there holds at_end not_closed fine =
          let P : Disk × Handle × Option HistoryError → Type 0 = λ done.
            Puts h.name content (line_of outside st) disk'
              (done.0, record w { file = some done.1 }, done.2) in
          if_split P h.broken (λ b. absurd (cc (b, fine)))
            (λ _.
              if_ind P (outside.denied Operation.write_file h.name)
                (write_part-IsPartly now h (outside.reaches h.name (line_of outside st))
                  (line_of outside st) content _ f disk' refl there holds at_end)
                (rw there (
                  record {
                    file = _;
                    there = set_file_self disk' h.name _;
                    holds =
                        ap (written h (line_of outside st)) holds
                        ∙ written-at_end h (line_of outside st) content at_end;
                    others = λ p k. set_file_ne disk' h.name _ p k;
                  },
                  record {
                    handle = _;
                    is_open = refl;
                    named = refl;
                    at_end = IsAtEnd-written h (line_of outside st) content at_end;
                    not_closed = not_closed;
                    not_broken = fine;
                  },
                )))
