-- ===== src/Persistence/History/Remove.antt =====
-- `RemoveOld` of `JSONDB` (internal/persistence/jsondb/jsondb.go): which files are left.
use light_soar.Prelude.{
  ℤ, negsuc, ℕ, pos, Bool, true, false, not, ◌&&◌, ◌||◌, Bool-cases, any, Option, none, some, List,
  [], ◌∷◌, Text, text_eq, text_eq→eq, text_eq_refl, text_eq_iff, if◌then◌else◌, if_ind, if_split,
  true_ne_false, subst, ◌≡◌, ◌≢◌, inl, inr, refl, sym, ap, ◌∙◌, arith,
}
use light_soar.Digraph.Variables.{load}
use light_soar.Persistence.History.Files.{
  Attempt, Outside, remove_file, HistoryError, Disk, File, file_at, remove, remove_existing,
}
use light_soar.Persistence.History.Defs.{JsonDb, names_of, select, glob, glob_pattern}
use light_soar.Persistence.History.Store.{
  older, later_error, remove_older, remove_among, remove_old,
}
use light_soar.Persistence.History.Effects.{remove_file_self, remove_file_ne}

none_ne : {f : File} → ¬ (none ≡ some f)
none_ne h = cc

lacks_unselected :
    (test : Text → Bool) (names : List Text) (p : Text)
    → test p ≡ false
    → any (text_eq p) (select test names) ≡ false
lacks_unselected test [] p h = refl
lacks_unselected test (n ∷ names) p h =
    if_split (λ ns. any (text_eq p) ns ≡ false) (test n)
      (λ e. elim (Bool-cases (text_eq p n)) [
        | inl here ↦ absurd (true_ne_false (sym e ∙ ap test (sym (text_eq→eq p n here)) ∙ h))
        | inr other ↦ rw other (lacks_unselected test names p h)
      ])
      (λ e. lacks_unselected test names p h)

or_true : (b : Bool) {c : Bool} → c ≡ true → b || c ≡ true
or_true true h = refl
or_true false h = h

has_selected :
    (test : Text → Bool) (files : List (Text × File)) (p : Text) (f : File)
    → load files p ≡ some f
    → test p ≡ true
    → any (text_eq p) (select test (names_of files)) ≡ true
unfolding load
has_selected test [] p f h k = absurd (none_ne h)
has_selected test ((n, g) ∷ files) p f h k = elim (Bool-cases (text_eq n p)) [
  | inl here ↦
      let same = text_eq→eq n p here in
      rw (ap test same ∙ k) (rw (ap (text_eq p) same ∙ text_eq_refl p) refl)
  | inr other ↦
      let later = has_selected test files p f (rw other at h) k in
      if_ind (λ ns. any (text_eq p) ns ≡ true) (test n) (or_true (text_eq p n) later) later
]

-- A name of the files is selected if it passes the test.
any-select :
    (test : Text → Bool) (files : List (Text × File)) (p : Text) (f : File)
    → load files p ≡ some f
    → any (text_eq p) (select test (names_of files)) ≡ test p
any-select test files p f h = elim (Bool-cases (test p)) [
  | inl k ↦ has_selected test files p f h k ∙ sym k
  | inr k ↦ lacks_unselected test (names_of files) p k ∙ sym k
]

abbrev unless_removed : Bool → Option File → Option File
unless_removed removed o = if removed then none else o

unless_removed_none : (b : Bool) → unless_removed b none ≡ none
unless_removed_none true = refl
unless_removed_none false = refl

merged :
    (cutoff : ℕ) (o : Option File) (a b n : Bool)
    → unless_removed
        (b && older cutoff (unless_removed (a && older cutoff o && n) o) && n)
        (unless_removed (a && older cutoff o && n) o)
      ≡ unless_removed ((a || b) && older cutoff o && n) o
merged cutoff none a b n = rw (unless_removed_none (a && false && n)) (
    rw (unless_removed_none (b && false && n)) (sym (unless_removed_none ((a || b) && false && n))))
merged cutoff (some f) true b true = ground arith
merged cutoff (some f) true b false = ground arith
merged cutoff (some f) false b n = refl

module _ (outside : Outside) (cutoff : ℕ) where
  abbrev one_removed : Text → Disk → Disk × Option HistoryError
  one_removed m disk = if older cutoff (file_at disk m) then remove outside m disk else (disk, none)

  abbrev allows : Text → Bool
  allows p = not (outside.denied remove_file p)

  at_name :
      (p : Text) (disk : Disk) (o : Option File)
      → file_at disk p ≡ o
      → file_at (if older cutoff o then remove outside p disk else (disk, none)).0 p
        ≡ unless_removed (older cutoff o && allows p) o
  unfolding remove remove_existing
  at_name p disk none e = e
  at_name p disk (some f) e = rw e (ground (arith, e, remove_file_self disk p))

  elsewhere :
      (m p : Text) (disk : Disk) (o : Option File)
      → p ≢ m
      → file_at (if older cutoff o then remove outside m disk else (disk, none)).0 p
        ≡ file_at disk p
  unfolding remove remove_existing
  elsewhere m p disk o h =
      if_ind (λ (r : Disk × Option HistoryError). file_at r.0 p ≡ file_at disk p) (older cutoff o)
        (removed (file_at disk m)) refl
    where
      removed : (o : Option File) → file_at (remove_existing outside m o disk).0 p ≡ file_at disk p
      removed none = refl
      removed (some f) =
          if_ind (λ (r : Disk × Option HistoryError). file_at r.0 p ≡ file_at disk p)
            (outside.denied remove_file m) refl (remove_file_ne disk m p h)

  file_at-one_removed :
      (m p : Text) (disk : Disk)
      → file_at (one_removed m disk).0 p
        ≡ unless_removed (text_eq p m && older cutoff (file_at disk p) && allows p) (file_at disk p)
  file_at-one_removed m p disk = elim (Bool-cases (text_eq p m)) [
    | inl here ↦
        subst
          (λ q.
            file_at (one_removed q disk).0 p
            ≡ unless_removed (text_eq p q && older cutoff (file_at disk p) && allows p)
                (file_at disk p))
          (text_eq→eq p m here) (rw (text_eq_refl p) (at_name p disk (file_at disk p) refl))
    | inr other ↦ rw other (
        elsewhere m p disk (file_at disk m)
          (λ e. true_ne_false (sym ((text_eq_iff p m).1 e) ∙ other)))
  ]

  file_at-remove_older :
      (ms : List Text) (p : Text) (last : Option HistoryError) (disk : Disk)
      → file_at (remove_older outside cutoff ms last disk).0 p
        ≡ unless_removed
            (any (text_eq p) ms && older cutoff (file_at disk p) && allows p)
            (file_at disk p)
  unfolding remove_older
  file_at-remove_older [] p last disk = refl
  file_at-remove_older (m ∷ ms) p last disk =
      file_at-remove_older ms p (later_error last (one_removed m disk).1) (one_removed m disk).0
      ∙ ap (λ o. unless_removed (any (text_eq p) ms && older cutoff o && allows p) o)
          (file_at-one_removed m p disk)
      ∙ merged cutoff (file_at disk p) (text_eq p m) (any (text_eq p) ms) (allows p)

-- `RemoveOld` for a number of days that is not below 0 removes each file whose name matches the
-- workflow's pattern, whose time is before that many days ago, and whose removal is not refused, and
-- leaves each other file as it is. The pattern is well-formed.
pub file_at-remove_old :
    (outside : Outside) (now : ℕ) (db : JsonDb) (key : Text) (days : ℕ) (disk : Disk) (p : Text)
    → outside.is_bad_pattern (glob_pattern outside db key) ≡ false
    → file_at (remove_old outside now db key (pos days) disk).0 p ≡ (
        if outside.matches (glob_pattern outside db key) p
          && older (outside.days_before now days) (file_at disk p)
          && not (outside.denied remove_file p)
        then none
        else file_at disk p)
unfolding remove_old remove_among glob file_at
file_at-remove_old outside now db key days disk p good = rw good (
    file_at-remove_older outside (outside.days_before now days)
      (select (outside.matches (glob_pattern outside db key)) (names_of disk.files)) p none disk
    ∙ go (file_at disk p) refl)
  where
    go :
        (o : Option File)
        → file_at disk p ≡ o
        → unless_removed
            (any
                (text_eq p)
                (select (outside.matches (glob_pattern outside db key)) (names_of disk.files))
              && older (outside.days_before now days) o
              && not (outside.denied remove_file p))
            o
          ≡ (if outside.matches (glob_pattern outside db key) p
                && older (outside.days_before now days) o
                && not (outside.denied remove_file p)
              then none
              else o)
    go none e = unless_removed_none _ ∙ sym (unless_removed_none _)
    go (some f) e =
        rw (any-select (outside.matches (glob_pattern outside db key)) disk.files p f e) refl

-- `RemoveOld` makes no file.
pub remove_old_none :
    (outside : Outside) (now : ℕ) (db : JsonDb) (key : Text) (days : ℤ) (disk : Disk) (p : Text)
    → file_at disk p ≡ none
    → file_at (remove_old outside now db key days disk).0 p ≡ none
unfolding remove_old remove_among glob
remove_old_none outside now db key (negsuc n) disk p h = h
remove_old_none outside now db key (pos days) disk p h =
    if_ind
      (λ (r : Attempt (List Text)).
        file_at (remove_among outside (outside.days_before now days) r disk).0 p ≡ none)
      (outside.is_bad_pattern (glob_pattern outside db key)) h
      (file_at-remove_older outside (outside.days_before now days)
          (select (outside.matches (glob_pattern outside db key)) (names_of disk.files)) p none disk
        ∙ ap
            (λ o.
              unless_removed
                (any (text_eq p)
                    (select (outside.matches (glob_pattern outside db key)) (names_of disk.files))
                  && older (outside.days_before now days) o
                  && not (outside.denied remove_file p))
                o)
            h
        ∙ unless_removed_none _)
