-- ===== src/Digraph/Variables/Laws.antt =====
-- Reading back what was stored, and what a `key=value` text gives back.
use light_soar.Prelude.{
  ◌++◌, List, All, ap, ◌<◌, ascii, any, ◌==◌, false, true, Bool, Bool-cases, inl, inr, count-append,
  ◌≡◌, refl, none, some, [], ◌∷◌, Text, text_eq, text_eq_iff, if◌then◌else◌, arith, count,
}
use light_soar.Digraph.Variables.Defs.{
  store, load, delete, new_key_value, key, value, to_bool, format_bool, true_words,
}

-- A read after `Store` gives the stored value at its key and the old one at any other.
pub load-store {ℓ} :
    {A : Type ℓ} (m : List (Text × A)) (k : Text) (v : A) (j : Text)
    → load (store m k v) j ≡ (if text_eq k j then some v else load m j)
unfolding load store
load-store [] k v j = refl
load-store ((i, w) ∷ m) k v j =
    ground (arith, text_eq_iff i k, text_eq_iff i j, text_eq_iff k j, load-store m k v j)

-- A read after `Delete` gives nothing at its key and the old value at any other.
pub load-delete {ℓ} :
    {A : Type ℓ} (m : List (Text × A)) (k j : Text)
    → load (delete m k) j ≡ (if text_eq k j then none else load m j)
unfolding load delete
load-delete [] k j = ground arith
load-delete ((i, w) ∷ m) k j =
    ground (arith, text_eq_iff i k, text_eq_iff i j, text_eq_iff k j, load-delete m k j)

-- A key with no `=` and any value are read back.
pub value-new_key_value :
    (k v : Text)
    → count b'=' k ≡ 0
    → (key (new_key_value k v) ≡ k) × (value (new_key_value k v) ≡ v)
unfolding new_key_value key value
value-new_key_value [] v h = (refl, refl)
value-new_key_value (c ∷ k) v h = ground (arith, value-new_key_value k v)

-- A flag that is stored under a key with no `=` is read back.
pub to_bool-new_key_value :
    (k : Text) (b : Bool) → count b'=' k ≡ 0 → to_bool (new_key_value k (format_bool b)) ≡ b
unfolding to_bool format_bool
to_bool-new_key_value k true h = rw (value-new_key_value k (ascii "true") h).1
to_bool-new_key_value k false h = rw (value-new_key_value k (ascii "false") h).1

-- With an `=` in the key, what is read back as the value begins in the middle of the key, and is no
-- word for true.
pub value_has_eq : (k v : Text) → 0 < count b'=' k → 0 < count b'=' (value (new_key_value k v))
unfolding new_key_value value
value_has_eq [] v h = absurd (omega arith)
value_has_eq (c ∷ k) v h = elim (Bool-cases (c == b'=')) [
  | inl here ↦ rw here (ground (arith, count-append b'=' k (ascii "=" ++ v)))
  | inr later ↦ rw later (value_has_eq k v (ground arith))
]

text_eq-differs : (s t : Text) → 0 < count b'=' s → count b'=' t ≡ 0 → text_eq s t ≡ false
text_eq-differs s t m n = elim (Bool-cases (text_eq s t)) [
  | inl same ↦ absurd (omega (arith, ap (count b'=') ((text_eq_iff s t).0 same)))
  | inr other ↦ other
]

any-text_eq-differs :
    (s : Text) (ts : List Text)
    → 0 < count b'=' s
    → All (λ t. count b'=' t ≡ 0) ts
    → any (text_eq s) ts ≡ false
any-text_eq-differs s [] m h = refl
any-text_eq-differs s (t ∷ ts) m h = rw (text_eq-differs s t m h.0) (any-text_eq-differs s ts m h.1)

pub to_bool-new_key_value_eq : (k v : Text) → 0 < count b'=' k → to_bool (new_key_value k v) ≡ false
unfolding to_bool
to_bool-new_key_value_eq k v h =
    any-text_eq-differs (value (new_key_value k v)) true_words (value_has_eq k v h)
      (refl, (refl, (refl, (refl, (refl, (refl, tt))))))
