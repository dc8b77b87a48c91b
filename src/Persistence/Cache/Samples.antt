-- ===== src/Persistence/Cache/Samples.antt =====
-- Two files and a cache of the first bytes of them.
use light_soar.Prelude.{
  ℕ, Bool, true, false, subst, ◌*◌, ◌+◌, ◌≤◌, ◌<◌, pos, Option, none, some, List, [], ◌∷◌, Text,
  ascii, text_eq, ◌≡◌, refl, arith, if◌then◌else◌,
}
use light_soar.Digraph.Variables.{store, load, delete}
use light_soar.Persistence.Cache.Defs.{
  Cache, FileInfo, unix, gives, new, store_file, evict, invalidate, load_latest, Answer, panics,
  Sweep, forget, clean, drop_by, drop_all,
}
use light_soar.Persistence.Cache.Fresh.{
  File, World, CacheEvent, write, look, drop, info_of, read, IsDirect, happen_all, IsTimely,
  load_latest-IsDirect, some_injective,
}

program : Unit {0}
unfolding load_latest drop_by drop_all happen_all invalidate new unix text_eq evict store_file load
    store delete
program = tt

abbrev second : ℕ
second = 1_000_000_000

abbrev first_byte : Text → Option ℕ
first_byte [] = none
first_byte (c ∷ s) = some c

abbrev text_file : ℕ → Text → File Text
text_file t s = record { info = record { size = 3; mod_time = t }; content = s }

abbrev files : Text → Option (File Text)
files p = if text_eq p (ascii "a") then some (text_file (5 + 7 * second) (ascii "old")) else none

abbrev days : List (CacheEvent Text)
days =
    look 0 0 (ascii "a") []
    ∷ write (ascii "a") (text_file (9 * second) (ascii "new"))
    ∷ look 0 3 (ascii "a") (forget (ascii "b") ∷ [])
    ∷ look 0 3 (ascii "b") []
    ∷ drop (clean ((ascii "a", 4) ∷ []) [])
    ∷ []

abbrev end_world : World Text ℕ
end_world =
    happen_all first_byte days (record { files = files; cache = new (pos 1) second; clock = 7 })

files_timed :
    (p : Text) (f : File Text)
    → files p ≡ some f
    → (0 < unix f.info.mod_time) × (unix f.info.mod_time ≤ 7)
unfolding program
files_timed p f h = go (text_eq p (ascii "a")) h
  where
    go :
        (b : Bool)
        → (if b then some (text_file (5 + 7 * second) (ascii "old")) else none) ≡ some f
        → (0 < unix f.info.mod_time) × (unix f.info.mod_time ≤ 7)
    go true k =
        subst (λ (g : File Text). (0 < unix g.info.mod_time) × (unix g.info.mod_time ≤ 7))
          (some_injective k) (ground arith, ground arith)
    go false k = absurd (cc)

days-IsTimely : IsTimely first_byte days 7
unfolding program
days-IsTimely = ground arith

load_latest-IsDirect_example :
    IsDirect first_byte
      (ascii "a")
      (forget (ascii "a") ∷ [])
      end_world
      (load_latest 0 0
        (ascii "a")
        (info_of (end_world.files (ascii "a")))
        (read first_byte (end_world.files (ascii "a")))
        (forget (ascii "a") ∷ [])
        end_world.cache).1
load_latest-IsDirect_example =
    load_latest-IsDirect first_byte (pos 1) second 7 files files_timed days days-IsTimely 0 0
      (ascii "a") (forget (ascii "a") ∷ [])

abbrev answer_with : List Sweep → Answer ℕ
unfolding program
answer_with between =
    (load_latest 0 0 (ascii "a") (info_of (end_world.files (ascii "a")))
      (read first_byte (end_world.files (ascii "a"))) between end_world.cache).1

reads_new : answer_with [] ≡ gives b'n'
unfolding program
reads_new = refl

-- The entry is dropped between the two looks.
panics_between : answer_with (forget (ascii "a") ∷ []) ≡ panics
unfolding program
panics_between = refl

abbrev small : FileInfo
small = record { size = 3; mod_time = 7 * second }

-- Two calls of `Store` for one file count as two items, so that a cache for
-- one item loses its only entry.
abbrev stored_twice : Cache ℕ
stored_twice =
    store_file 0 0 (ascii "a") 2 small (store_file 0 0 (ascii "a") 1 small (new (pos 1) second))

drops_only_entry : (evict ((ascii "a", 4) ∷ []) (ascii "a" ∷ []) stored_twice).entries ≡ []
unfolding program
drops_only_entry = refl
