-- ===== src/Persistence/Cache/Within.antt =====
-- What `Invalidate` and `evict` leave in the cache was there before.
use light_soar.Prelude.{
  ℕ, ◌&&◌, Bool, true, false, is_positive_int, int_gt, ltb, Option, none, some, List, [], ◌∷◌,
  if◌then◌else◌, Text, text_eq, ◌≡◌, sym, ◌∙◌,
}
use light_soar.Digraph.Variables.{load, load-delete}
use light_soar.Persistence.Cache.Defs.{
  Entry, Cache, invalidate, expire, expire_all, shrink, evict, Sweep, forget, clean, drop_by,
  drop_all,
}

module _ {ℓ} {T : Type ℓ} where
  -- The entries of a cache are among those of another.
  abbrev pub Within : Cache T → Cache T → Type ℓ
  Within c d = (p : Text) (e : Entry T) → load c.entries p ≡ some e → load d.entries p ≡ some e

  if-Within : (b : Bool) (x y d : Cache T) → Within x d → Within y d → Within (if b then x else y) d
  if-Within true x y d h k = h
  if-Within false x y d h k = k

  chosen :
      (b : Bool) {o : Option (Entry T)} (e : Entry T)
      → (if b then none else o) ≡ some e
      → o ≡ some e
  chosen true e h = cc
  chosen false e h = h

  invalidate-Within : (file : Text) (c : Cache T) → Within (invalidate file c) c
  unfolding invalidate
  invalidate-Within file c p e h =
      chosen (text_eq file p) e (sym (load-delete c.entries file p) ∙ h)

  expire-Within :
      (now : ℕ) (file : Text) (o : Option (Entry T)) (c : Cache T) → Within (expire now file o c) c
  unfolding expire
  expire-Within now file none c = λ p e h. h
  expire-Within now file (some x) c =
      if-Within (ltb x.expires_at now) (invalidate file c) c c (invalidate-Within file c)
        (λ p e h. h)

  expire_all-Within : (visits : List (Text × ℕ)) (c : Cache T) → Within (expire_all visits c) c
  unfolding expire_all
  expire_all-Within [] c p e h = h
  expire_all-Within ((file, now) ∷ visits) c p e h =
      let d = expire now file (load c.entries file) c in
      expire-Within now file (load c.entries file) c p e (expire_all-Within visits d p e h)

  shrink-Within : (files : List Text) (c : Cache T) → Within (shrink files c) c
  unfolding shrink
  shrink-Within [] c = λ p e h. h
  shrink-Within (file ∷ files) c =
      let d = invalidate file c in
      elim (int_gt d.items d.capacity)
        as (λ b. Within (elim b [ true ↦ shrink files d | false ↦ d ]) c) [
          | true ↦ λ p e h. invalidate-Within file c p e (shrink-Within files d p e h)
          | false ↦ invalidate-Within file c
        ]

  evict-Within :
      (visits : List (Text × ℕ)) (files : List Text) (c : Cache T) → Within (evict visits files c) c
  unfolding evict
  evict-Within visits files c =
      let d = expire_all visits c in
      if-Within (is_positive_int d.capacity && int_gt d.items d.capacity) (shrink files d) d c
        (λ p e h. expire_all-Within visits c p e (shrink-Within files d p e h))
        (expire_all-Within visits c)

  pub drop_by-Within : (s : Sweep) (c : Cache T) → Within (drop_by s c) c
  unfolding drop_by
  drop_by-Within (forget file) c = invalidate-Within file c
  drop_by-Within (clean visits files) c = evict-Within visits files c

  pub drop_all-Within : (ss : List Sweep) (c : Cache T) → Within (drop_all ss c) c
  unfolding drop_all
  drop_all-Within [] c p e h = h
  drop_all-Within (s ∷ ss) c p e h = drop_by-Within s c p e (drop_all-Within ss (drop_by s c) p e h)
