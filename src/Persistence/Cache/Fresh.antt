-- ===== src/Persistence/Cache/Fresh.antt =====
-- What `LoadLatest` gives is what a read of the file gives.
use light_soar.Prelude.{
  ℕ, ◌≤◌, ◌<◌, ltb, ℤ, Bool, true, false, ◌||◌, Option, none, some, List, [], ◌∷◌, if◌then◌else◌,
  if_split, Text, text_eq, text_eq→eq, ◌≡◌, refl, sym, ap, ◌∙◌, subst, ◌⊎◌, inl, inr, arith,
}
use light_soar.Digraph.Variables.{load, load-store}
use light_soar.Persistence.Cache.Within.{Within, drop_by-Within, drop_all-Within}
use light_soar.Persistence.Cache.Defs.{
  Entry, Cache, FileInfo, unix, Answer, gives, cannot_stat, cannot_load, panics, Sweep, drop_by,
  drop_all, new_entry, store_file, new, is_stale, answer_from, reload, load_latest,
}

pub record File (C : Type 0) : Type 0 where
  pub info : FileInfo
  pub content : C

-- The files with a cache of what is read of them, and a bound of the times of the files, in seconds.
pub record World (C T : Type 0) : Type 0 where
  pub files : Text → Option (File C)
  pub cache : Cache T
  pub clock : ℕ

abbrev pub info_of : {C : Type 0} → Option (File C) → Option FileInfo
info_of none = none
info_of (some f) = some f.info

abbrev put_file :
    {C : Type 0} → Text → Option (File C) → (Text → Option (File C)) → Text → Option (File C)
put_file file f files other = if text_eq file other then f else files other

-- `write` gives the file a new second; the other events are the removal of a file and the calls of
-- the cache.
pub data CacheEvent (C : Type 0) : Type 0 where
  write : (file : Text) → File C → CacheEvent C
  remove : Text → CacheEvent C
  look : (now minutes : ℕ) → Text → List Sweep → CacheEvent C
  drop : Sweep → CacheEvent C

abbrev pub answer_of : {T : Type 0} → Option T → Answer T
answer_of none = cannot_load
answer_of (some v) = gives v

-- What a map that was changed at one place gives.
chosen :
    {A : Type 0} (b : Bool) {o : Option A} (x : Option A) (a : A)
    → (if b then x else o) ≡ some a
    → ((b ≡ true) × (x ≡ some a)) ⊎ (o ≡ some a)
chosen true x a h = inl (refl, h)
chosen false x a h = inr h

pub some_injective : {A : Type 0} {a b : A} → some a ≡ some b → a ≡ b
some_injective h = cc

stale_missing :
    (T : Type 0) (fi : FileInfo) → 0 < unix fi.mod_time → is_stale {T = T} fi none ≡ true
unfolding is_stale
stale_missing T fi h = ground arith

not_before : (a b : ℕ) (c : Bool) → ltb a b || c ≡ false → b ≤ a
not_before a b c h = ground arith

module _ {C T : Type 0} (parse : C → Option T) where
  abbrev pub read : Option (File C) → Option T
  read none = none
  read (some f) = parse f.content

  -- A read without the cache.
  abbrev pub direct : Option (File C) → Answer T
  direct none = cannot_stat
  direct (some f) = answer_of (parse f.content)

  abbrev look_at : (now minutes : ℕ) → Text → List Sweep → World C T → Cache T × Answer T
  look_at now minutes file between w =
      load_latest now minutes file (info_of (w.files file)) (read (w.files file)) between w.cache

  -- The entry of the file was there at the first look and is gone at the second.
  abbrev pub IsDropped : Text → List Sweep → Cache T → Type 0
  IsDropped file between c =
      (e : Entry T) × (load c.entries file ≡ some e)
      × (load (drop_all between c).entries file ≡ none)

  -- The answer of a direct read, or a panic where the entry was dropped.
  abbrev pub IsDirect : Text → List Sweep → World C T → Answer T → Type 0
  IsDirect file between w a =
      (a ≡ direct (w.files file)) ⊎ ((a ≡ panics) × IsDropped file between w.cache)

  unfoldable pub happen : CacheEvent C → World C T → World C T
  unfolding text_eq
  happen (write file f) w = record w {
    files = put_file file (some f) w.files;
    clock = unix f.info.mod_time;
  }
  happen (remove file) w = record w { files = put_file file none w.files }
  happen (look now minutes file between) w = record w {
    cache = (look_at now minutes file between w).0;
  }
  happen (drop s) w = record w { cache = drop_by s w.cache }

  unfoldable pub happen_all : List (CacheEvent C) → World C T → World C T
  unfolding happen
  happen_all [] w = w
  happen_all (e ∷ es) w = happen_all es (happen e w)

  -- Each write is in a later second than those before it.
  abbrev pub IsTimely : List (CacheEvent C) → ℕ → Type 0
  IsTimely [] clock = Unit
  IsTimely (write file f ∷ es) clock =
      (clock < unix f.info.mod_time) × IsTimely es (unix f.info.mod_time)
  IsTimely (_ ∷ es) clock = IsTimely es clock

  -- An entry is of this file or of an older one.
  pub record Fits (f : File C) (e : Entry T) : Type 0 where
    pub no_newer : e.last_modified ≤ unix f.info.mod_time
    pub same :
        e.last_modified ≡ unix f.info.mod_time
        → (e.size ≡ f.info.size) × (parse f.content ≡ some e.data_of)

  pub record IsFresh (w : World C T) : Type 0 where
    pub timed :
        (p : Text) (f : File C)
        → w.files p ≡ some f
        → (0 < unix f.info.mod_time) × (unix f.info.mod_time ≤ w.clock)
    pub past :
        (p : Text) (e : Entry T) → load w.cache.entries p ≡ some e → e.last_modified ≤ w.clock
    pub fits :
        (p : Text) (f : File C) (e : Entry T)
        → w.files p ≡ some f
        → load w.cache.entries p ≡ some e
        → Fits f e

  narrow-IsFresh :
      (w : World C T) (c : Cache T)
      → Within c w.cache
      → IsFresh w
      → IsFresh (record w { cache = c })
  narrow-IsFresh w c h fresh = record {
    timed = fresh.timed;
    past = λ p e k. fresh.past p e (h p e k);
    fits = λ p f e k l. fresh.fits p f e k (h p e l);
  }

  write-IsFresh :
      (file : Text) (g : File C) (w : World C T)
      → w.clock < unix g.info.mod_time
      → IsFresh w
      → IsFresh (happen (write file g) w)
  unfolding happen
  write-IsFresh file g w later fresh = record {
    timed = λ p f h. elim (chosen (text_eq file p) (some g) f h) [
      | inl (same, e) ↦
          subst (λ g'. (0 < unix g'.info.mod_time) × (unix g'.info.mod_time ≤ unix g.info.mod_time))
            (some_injective e) (omega arith, omega arith)
      | inr old ↦ let (a, b) = fresh.timed p f old in (a, omega arith)
    ];
    past = λ p e k. let old = fresh.past p e k in omega arith;
    fits = λ p f e h k. elim (chosen (text_eq file p) (some g) f h) [
      | inl (same, x) ↦
          let before = fresh.past p e k in
          subst (λ g'. Fits g' e) (some_injective x)
            (record { no_newer = omega arith; same = λ q. absurd (omega arith) })
      | inr old ↦ fresh.fits p f e old k
    ];
  }

  remove-IsFresh : (file : Text) (w : World C T) → IsFresh w → IsFresh (happen (remove file) w)
  unfolding happen
  remove-IsFresh file w fresh = record {
    timed = λ p f h. elim (chosen (text_eq file p) none f h) [
      | inl (same, e) ↦ absurd (cc)
      | inr old ↦ fresh.timed p f old
    ];
    past = fresh.past;
    fits = λ p f e h k. elim (chosen (text_eq file p) none f h) [
      | inl (same, x) ↦ absurd (cc)
      | inr old ↦ fresh.fits p f e old k
    ];
  }

  -- A new entry of a file.
  store-IsFresh :
      (now minutes : ℕ) (file : Text) (g : File C) (v : T) (w : World C T)
      → w.files file ≡ some g
      → parse g.content ≡ some v
      → IsFresh w
      → IsFresh (record w { cache = store_file now minutes file v g.info w.cache })
  unfolding store_file new_entry
  store-IsFresh now minutes file g v w there read_as fresh = record {
    timed = fresh.timed;
    past = λ p e k.
        elim (chosen (text_eq file p)
          (some (new_entry now minutes v g.info.size (unix g.info.mod_time) w.cache.ttl)) e
          (sym (load-store w.cache.entries file _ p) ∙ k)) [
            | inl (same, x) ↦
                subst (λ e'. e'.last_modified ≤ w.clock) (some_injective x)
                  (fresh.timed file g there).1
            | inr old ↦ fresh.past p e old
          ];
    fits = λ p f e h k.
        elim (chosen (text_eq file p)
          (some (new_entry now minutes v g.info.size (unix g.info.mod_time) w.cache.ttl)) e
          (sym (load-store w.cache.entries file _ p) ∙ k)) [
            | inl (same, x) ↦
                let one = some_injective (sym there ∙ ap w.files (text_eq→eq file p same) ∙ h) in
                subst (λ f'. Fits f' e) one
                  (subst (Fits g) (some_injective x)
                    (record { no_newer = omega arith; same = λ q. (refl, read_as) }))
            | inr old ↦ fresh.fits p f e h old
          ];
  }

  fitting :
      (f : File C) (e : Entry T)
      → Fits f e
      → is_stale f.info (some e) ≡ false
      → answer_from (some e) ≡ answer_of (parse f.content)
  unfolding is_stale answer_from
  fitting f e h k =
      let newest = h.no_newer in
      let q = not_before e.last_modified (unix f.info.mod_time) _ k in
      let m = (h.same (omega arith)).1 in ap answer_of (sym m)

  -- The second look at an entry that is not stale.
  second_look :
      (file : Text) (between : List Sweep) (w : World C T) (f : File C) (e : Entry T)
      → load w.cache.entries file ≡ some e
      → answer_from (some e) ≡ answer_of (parse f.content)
      → w.files file ≡ some f
      → (x : Option (Entry T)) → load (drop_all between w.cache).entries file ≡ x
      → IsDirect file between w (answer_from x)
  unfolding answer_from
  second_look file between w f e k h there none l = inr (refl, (e, k, l))
  second_look file between w f e k h there (some x) l =
      let same = some_injective (sym k ∙ drop_all-Within between w.cache file x l) in
      inl (ap (λ y. gives y.data_of) (sym same) ∙ h ∙ ap direct (sym there))

  reload_direct :
      (now minutes : ℕ) (file : Text) (fi : FileInfo) (o : Option T) (c : Cache T)
      → (reload now minutes file fi o c).1 ≡ answer_of o
  unfolding reload
  reload_direct now minutes file fi none c = refl
  reload_direct now minutes file fi (some v) c = refl

  look_at-IsDirect :
      (now minutes : ℕ) (file : Text) (between : List Sweep) (w : World C T)
      → IsFresh w
      → IsDirect file between w (look_at now minutes file between w).1
  unfolding load_latest
  look_at-IsDirect now minutes file between w fresh = go (w.files file) refl
    where
      not_stale :
          (f : File C)
          → w.files file ≡ some f
          → (x : Option (Entry T)) → load w.cache.entries file ≡ x
          → is_stale f.info x ≡ false
          → IsDirect file between w (answer_from (load (drop_all between w.cache).entries file))
      not_stale f e none k fine =
          absurd (ground (arith, fine, stale_missing T f.info (fresh.timed file f e).0))
      not_stale f e (some x) k fine =
          second_look file between w f x k (fitting f x (fresh.fits file f x e k) fine) e _ refl

      go :
          (o : Option (File C))
          → w.files file ≡ o
          → IsDirect file between w
              (load_latest now minutes file (info_of o) (read o) between w.cache).1
      go none e = inl (ap direct (sym e))
      go (some f) e =
          let c' = drop_all between w.cache in
          if_split (λ (n : Cache T × Answer T). IsDirect file between w n.1)
            (is_stale f.info (load w.cache.entries file))
            (λ _.
              inl (reload_direct now minutes file f.info (parse f.content) c' ∙ ap direct (sym e)))
            (λ fine. not_stale f e (load w.cache.entries file) refl fine)

  look-IsFresh :
      (now minutes : ℕ) (file : Text) (between : List Sweep) (w : World C T)
      → IsFresh w
      → IsFresh (happen (look now minutes file between) w)
  unfolding happen load_latest reload
  look-IsFresh now minutes file between w fresh = go (w.files file) refl
    where
      swept : Cache T
      swept = drop_all between w.cache

      narrow : IsFresh (record w { cache = swept })
      narrow = narrow-IsFresh w swept (drop_all-Within between w.cache) fresh

      reloaded :
          (b : Bool) (f : File C)
          → w.files file ≡ some f
          → (o : Option T) → parse f.content ≡ o
          → (x : Answer T)
          → IsFresh (record w {
            cache = (if b then reload now minutes file f.info o swept else (swept, x)).0;
          })
      reloaded false f e o k x = narrow
      reloaded true f e none k x = narrow
      reloaded true f e (some v) k x =
          store-IsFresh now minutes file f v (record w { cache = swept }) e k narrow

      go :
          (o : Option (File C))
          → w.files file ≡ o
          → IsFresh (record w {
            cache = (load_latest now minutes file (info_of o) (read o) between w.cache).0;
          })
      go none e = narrow
      go (some f) e =
          reloaded (is_stale f.info (load w.cache.entries file)) f e (parse f.content) refl
            (answer_from (load swept.entries file))

  happen_all-IsFresh :
      (es : List (CacheEvent C)) (w : World C T)
      → IsTimely es w.clock
      → IsFresh w
      → IsFresh (happen_all es w)
  unfolding happen_all happen
  happen_all-IsFresh [] w timely fresh = fresh
  happen_all-IsFresh (write file g ∷ es) w timely fresh =
      happen_all-IsFresh es (happen (write file g) w) timely.1
        (write-IsFresh file g w timely.0 fresh)
  happen_all-IsFresh (remove file ∷ es) w timely fresh =
      happen_all-IsFresh es (happen (remove file) w) timely (remove-IsFresh file w fresh)
  happen_all-IsFresh (look now minutes file between ∷ es) w timely fresh =
      happen_all-IsFresh es (happen (look now minutes file between) w) timely
        (look-IsFresh now minutes file between w fresh)
  happen_all-IsFresh (drop s ∷ es) w timely fresh =
      happen_all-IsFresh es (happen (drop s) w) timely
        (narrow-IsFresh w (drop_by s w.cache) (drop_by-Within s w.cache) fresh)

  -- From an empty cache, after any writes and removals of files and any calls of the cache, in any
  -- order, `LoadLatest` answers as a read of the file without a cache does; or it panics, and then the
  -- entry was there at its first look and calls of `Invalidate` or `evict` dropped it before its
  -- second look. Each write is in a later second than the writes before it, and so than the files that
  -- are there at the start, whose times are behind the epoch; and no file is written during the call.
  pub load_latest-IsDirect :
      (capacity : ℤ) (ttl clock : ℕ) (files : Text → Option (File C))
      → ((p : Text) (f : File C)
          → files p ≡ some f
          → (0 < unix f.info.mod_time) × (unix f.info.mod_time ≤ clock))
      → (es : List (CacheEvent C)) → IsTimely es clock
      → (now minutes : ℕ) (file : Text) (between : List Sweep)
      → let w = happen_all es (record { files = files; cache = new capacity ttl; clock = clock }) in
        IsDirect file between w
          (load_latest now minutes file
            (info_of (w.files file))
            (read (w.files file))
            between
            w.cache).1
  unfolding new load
  load_latest-IsDirect capacity ttl clock files h es timely now minutes file between =
      look_at-IsDirect now minutes file between _ (
        happen_all-IsFresh es _ timely
          (record { timed = h; past = λ p e k. absurd (cc); fits = λ p f e l k. absurd (cc) }))
