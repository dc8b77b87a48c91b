-- ===== src/Persistence/Cache/Defs.antt =====
-- `Cache` and its methods. A time is a number of nanoseconds since the Unix epoch. The clock, the
-- random number of `newEntry` and the order of a `Range` are arguments.
use light_soar.Prelude.{
  ℕ, suc, negsuc, ◌+◌, ◌*◌, ◌/◌, ltb, ◌==◌, ℤ, pos, succ_int, pred_int, is_positive_int, int_gt,
  Bool, true, false, not, ◌||◌, ◌&&◌, Option, none, some, List, [], ◌∷◌, if◌then◌else◌, Text,
}
use light_soar.Digraph.Variables.{store, load, delete}

pub record Entry {ℓ} (T : Type ℓ) : Type ℓ where
  pub data_of : T
  pub size : ℕ
  pub last_modified : ℕ
  pub expires_at : ℕ

-- The additions to an `atomic.Int32`.
abbrev succ_int32 : ℤ → ℤ
succ_int32 (pos n) = if n == 2_147_483_647 then negsuc 2_147_483_647 else pos (suc n)
succ_int32 (negsuc n) = succ_int (negsuc n)

abbrev pred_int32 : ℤ → ℤ
pred_int32 (pos n) = pred_int (pos n)
pred_int32 (negsuc n) = if n == 2_147_483_647 then pos 2_147_483_647 else negsuc (suc n)

pub record Cache {ℓ} (T : Type ℓ) : Type ℓ where
  pub entries : List (Text × Entry T)
  pub capacity : ℤ
  pub ttl : ℕ
  pub items : ℤ

-- What `os.Stat` gives.
pub record FileInfo : Type 0 where
  pub size : ℕ
  pub mod_time : ℕ

-- `Time.Unix`
unfoldable pub unix : ℕ → ℕ
unix t = t / 1_000_000_000

-- A call that drops entries: of `Invalidate` for a file, or of `evict` with the order of its loops.
pub data Sweep : Type 0 where
  forget : Text → Sweep
  clean : List (Text × ℕ) → List Text → Sweep

-- How `LoadLatest` ends; an assertion about a missing entry is a panic.
pub data Answer {ℓ} (T : Type ℓ) : Type ℓ where
  gives : (v : T) → Answer T
  cannot_stat cannot_load panics : Answer T

module _ {ℓ} {T : Type ℓ} where
  -- `New`
  unfoldable pub new : ℤ → ℕ → Cache T
  new capacity ttl = record { entries = []; capacity = capacity; ttl = ttl; items = pos 0 }

  -- `newEntry`, with the random number of minutes.
  unfoldable pub new_entry : (now minutes : ℕ) → T → (size last_modified ttl : ℕ) → Entry T
  new_entry now minutes v size last_modified ttl = record {
    data_of = v;
    size = size;
    last_modified = last_modified;
    expires_at = now + ttl + minutes * 60_000_000_000;
  }

  -- `Store`
  unfoldable pub store_file : (now minutes : ℕ) → Text → T → FileInfo → Cache T → Cache T
  unfolding store new_entry
  store_file now minutes file v fi c = record c {
    items = succ_int32 c.items;
    entries = store c.entries file (new_entry now minutes v fi.size (unix fi.mod_time) c.ttl);
  }

  -- `Invalidate`
  unfoldable pub invalidate : Text → Cache T → Cache T
  unfolding delete
  invalidate file c = record c { items = pred_int32 c.items; entries = delete c.entries file }

  -- The body of the first loop of `evict`.
  unfoldable pub expire : (now : ℕ) → Text → Option (Entry T) → Cache T → Cache T
  unfolding invalidate
  expire now file none c = c
  expire now file (some e) c = if ltb e.expires_at now then invalidate file c else c

  -- The first loop, over the files in the order of the `Range`, each with the time of its visit.
  unfoldable pub expire_all : List (Text × ℕ) → Cache T → Cache T
  unfolding expire load
  expire_all [] c = c
  expire_all ((file, now) ∷ files) c = expire_all files (expire now file (load c.entries file) c)

  -- The second loop.
  unfoldable pub shrink : List Text → Cache T → Cache T
  unfolding invalidate
  shrink [] c = c
  shrink (file ∷ files) c =
      let c' = invalidate file c in
      elim (int_gt c'.items c'.capacity) [ true ↦ shrink files c' | false ↦ c' ]

  -- `evict`
  unfoldable pub evict : List (Text × ℕ) → List Text → Cache T → Cache T
  unfolding expire_all shrink
  evict visits files c =
      let c' = expire_all visits c in
      if is_positive_int c'.capacity && int_gt c'.items c'.capacity then shrink files c' else c'

  -- `IsStale`, for a file that exists; a missing entry has the size 0 and the time 0.
  unfoldable pub is_stale : FileInfo → Option (Entry T) → Bool
  is_stale fi none = ltb 0 (unix fi.mod_time) || not (0 == fi.size)
  is_stale fi (some e) = ltb e.last_modified (unix fi.mod_time) || not (e.size == fi.size)

  unfoldable pub answer_from : Option (Entry T) → Answer T
  answer_from none = panics
  answer_from (some e) = gives e.data_of

  unfoldable pub reload :
      (now minutes : ℕ) → Text → FileInfo → Option T → Cache T → Cache T × Answer T
  unfolding store_file
  reload now minutes file fi none c = (c, cannot_load)
  reload now minutes file fi (some v) c = (store_file now minutes file v fi c, gives v)

  unfoldable pub drop_by : Sweep → Cache T → Cache T
  unfolding invalidate evict
  drop_by (forget file) c = invalidate file c
  drop_by (clean visits files) c = evict visits files c

  unfoldable pub drop_all : List Sweep → Cache T → Cache T
  unfolding drop_by
  drop_all [] c = c
  drop_all (s ∷ ss) c = drop_all ss (drop_by s c)

  -- `LoadLatest`, with what `os.Stat` gives, what the loader gives, and the calls by others that
  -- drop entries between its first look at the entry and its second look or its store.
  unfoldable pub load_latest :
      (now minutes : ℕ)
      → Text
      → Option FileInfo
      → (loader : Option T) → List Sweep
      → Cache T
      → Cache T × Answer T
  unfolding is_stale reload answer_from load drop_all
  load_latest now minutes file none loader between c = (drop_all between c, cannot_stat)
  load_latest now minutes file (some fi) loader between c =
      let c' = drop_all between c in
      if is_stale fi (load c.entries file)
      then reload now minutes file fi loader c'
      else (c', answer_from (load c'.entries file))
