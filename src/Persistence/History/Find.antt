-- ===== src/Persistence/History/Find.antt =====
-- `FindByRequestID` of `JSONDB` (internal/persistence/jsondb/jsondb.go): what is found.
use light_soar.Prelude.{
  text_eq→eq, true_ne_false, Bool, true, false, Bool-cases, List, [], ◌∷◌, Text, text_eq,
  text_eq_refl, if◌then◌else◌, ◌≡◌, subst, inl, inr, refl, sym, ap, ◌∙◌,
}
use light_soar.Persistence.Record.Defs.{RunRecord}
use light_soar.Persistence.History.Files.{Outside, HistoryError, Attempt, gives, fails, Disk}
use light_soar.Persistence.History.Writer.{parse_status_file}
use light_soar.Persistence.History.Defs.{
  JsonDb, StatusFile, names_of, glob, glob_pattern, sort_by, text_lt, select,
}
use light_soar.Persistence.History.Store.{
  has_request_id, status_file_of, find_in, find_among, find_by_request_id,
}
use light_soar.Persistence.History.Effects.{IsSameBut}
use light_soar.Persistence.History.Compact.{parse_same}

gives_injective : {a b : StatusFile} → gives a ≡ gives b → a ≡ b
gives_injective h = cc

fails_ne : {e : HistoryError} {f : StatusFile} → ¬ (fails e ≡ gives f)
fails_ne h = cc

abbrev pub SameNames : Disk → Disk → Type 0
SameNames disk disk' = names_of disk'.files ≡ names_of disk.files

module _ (outside : Outside) where
  find_in-request_id :
      (id : Text) (ms : List Text) (disk : Disk) (f : StatusFile)
      → find_in outside id ms disk ≡ gives f
      → f.status.request_id ≡ id
  unfolding find_in has_request_id
  find_in-request_id id [] disk f h = absurd (fails_ne h)
  find_in-request_id id (m ∷ ms) disk f h =
      go (parse_status_file outside m disk) h (find_in-request_id id ms disk f)
    where
      go :
          (o : Attempt RunRecord)
          → (if has_request_id id o
              then status_file_of m o (find_in outside id ms disk)
              else find_in outside id ms disk)
            ≡ gives f
          → (find_in outside id ms disk ≡ gives f → f.status.request_id ≡ id)
          → f.status.request_id ≡ id
      go (fails e) h later = later h
      go (gives st) h later = elim (Bool-cases (text_eq st.request_id id)) [
        | inl here ↦
            sym (ap (λ (x : StatusFile). x.status.request_id) (gives_injective (rw here at h)))
            ∙ text_eq→eq st.request_id id here
        | inr not_here ↦ later (rw not_here at h)
      ]

  -- What is found has the request that was asked for.
  pub find_by_request_id-request_id :
      (db : JsonDb) (key id : Text) (disk : Disk) (f : StatusFile)
      → find_by_request_id outside db key id disk ≡ gives f
      → f.status.request_id ≡ id
  unfolding find_by_request_id find_among
  find_by_request_id-request_id db key id disk f h =
      go (text_eq id []) (glob outside (glob_pattern outside db key) disk) h
    where
      go :
          (b : Bool) (g : Attempt (List Text))
          → (if b then fails HistoryError.request_id_empty else find_among outside id g disk)
            ≡ gives f
          → f.status.request_id ≡ id
      go true g h = absurd (fails_ne h)
      go false (fails e) h = absurd (fails_ne h)
      go false (gives ms) h = find_in-request_id id (sort_by (λ a b. text_lt b a) ms) disk f h

  -- What is found has the request.
  find_in-has_request_id :
      (id : Text) (ms : List Text) (disk : Disk) (f : StatusFile)
      → find_in outside id ms disk ≡ gives f
      → has_request_id id (parse_status_file outside f.file disk) ≡ true
  unfolding find_in has_request_id
  find_in-has_request_id id [] disk f h = absurd (fails_ne h)
  find_in-has_request_id id (m ∷ ms) disk f h =
      go (parse_status_file outside m disk) refl h (find_in-has_request_id id ms disk f)
    where
      go :
          (o : Attempt RunRecord)
          → parse_status_file outside m disk ≡ o
          → (if has_request_id id o
              then status_file_of m o (find_in outside id ms disk)
              else find_in outside id ms disk)
            ≡ gives f
          → (find_in outside id ms disk ≡ gives f
              → has_request_id id (parse_status_file outside f.file disk) ≡ true)
          → has_request_id id (parse_status_file outside f.file disk) ≡ true
      go (fails e) k h later = later h
      go (gives st) k h later = elim (Bool-cases (text_eq st.request_id id)) [
        | inl here ↦
            subst
              (λ (x : StatusFile). has_request_id id (parse_status_file outside x.file disk) ≡ true)
              (gives_injective (rw here at h)) (ap (has_request_id id) k ∙ here)
        | inr not_here ↦ later (rw not_here at h)
      ]

  find_in-updated :
      (id : Text) (ms : List Text) (disk disk' : Disk) (f : StatusFile) (st : RunRecord)
      → find_in outside id ms disk ≡ gives f
      → IsSameBut f.file disk disk'
      → parse_status_file outside f.file disk' ≡ gives st
      → st.request_id ≡ id
      → find_in outside id ms disk' ≡ gives (record { file = f.file; status = st })
  unfolding find_in has_request_id
  find_in-updated id [] disk disk' f st h same reads named = absurd (fails_ne h)
  find_in-updated id (m ∷ ms) disk disk' f st h same reads named =
      elim (Bool-cases (has_request_id id (parse_status_file outside m disk))) [
        | inl here ↦
            let at_file = first_file (parse_status_file outside m disk) here h in
            rw (ap (λ n. parse_status_file outside n disk') at_file ∙ reads) (
              rw (ap (λ i. text_eq i id) named ∙ text_eq_refl id)
                (ap (λ n. gives (record { file = n; status = st })) at_file))
        | inr not_here ↦
            let has = find_in-has_request_id id ms disk f (rw not_here at h) in
            let old = parse_same outside m m disk disk' (
              same m (λ e. true_ne_false (
                sym has
                ∙ ap (λ n. has_request_id id (parse_status_file outside n disk)) (sym e)
                ∙ not_here))) in
            rw (ap (has_request_id id) old ∙ not_here)
              (find_in-updated id ms disk disk' f st (rw not_here at h) same reads named)
      ]
    where
      first_file :
          (o : Attempt RunRecord)
          → has_request_id id o ≡ true
          → (if has_request_id id o
              then status_file_of m o (find_in outside id ms disk)
              else find_in outside id ms disk)
            ≡ gives f
          → m ≡ f.file
      first_file (fails e) k h = absurd (true_ne_false (sym k))
      first_file (gives s) k h = ap (λ (x : StatusFile). x.file) (gives_injective (rw k at h))

  find_among-updated :
      (id : Text) (b : Bool) (g : Attempt (List Text)) (disk disk' : Disk) (f : StatusFile)
      (st : RunRecord)
      → (if b then fails HistoryError.request_id_empty else find_among outside id g disk) ≡ gives f
      → IsSameBut f.file disk disk'
      → parse_status_file outside f.file disk' ≡ gives st
      → st.request_id ≡ id
      → (if b then fails HistoryError.request_id_empty else find_among outside id g disk')
        ≡ gives (record { file = f.file; status = st })
  unfolding find_among
  find_among-updated id true g disk disk' f st h same reads named = absurd (fails_ne h)
  find_among-updated id false (fails e) disk disk' f st h same reads named = absurd (fails_ne h)
  find_among-updated id false (gives ms) disk disk' f st h same reads named =
      find_in-updated id (sort_by (λ a b. text_lt b a) ms) disk disk' f st h same reads named

  pub find_by_request_id-updated :
      (db : JsonDb) (key id : Text) (disk disk' : Disk) (f : StatusFile) (st : RunRecord)
      → find_by_request_id outside db key id disk ≡ gives f
      → SameNames disk disk'
      → IsSameBut f.file disk disk'
      → parse_status_file outside f.file disk' ≡ gives st
      → st.request_id ≡ id
      → find_by_request_id outside db key id disk' ≡ gives (record { file = f.file; status = st })
  unfolding find_by_request_id glob
  find_by_request_id-updated db key id disk disk' f st h names same reads named =
      rw (glob_same (glob_pattern outside db key) names) (
        find_among-updated id (text_eq id []) (glob outside (glob_pattern outside db key) disk) disk
          disk' f st h same reads named)
    where
      glob_same :
          (pattern : Text)
          → SameNames disk disk'
          → glob outside pattern disk' ≡ glob outside pattern disk
      glob_same pattern names =
          ap
            (λ ns.
              if outside.is_bad_pattern pattern
              then fails HistoryError.bad_pattern
              else gives (select (outside.matches pattern) ns))
            names
