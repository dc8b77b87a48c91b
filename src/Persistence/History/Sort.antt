-- ===== src/Persistence/History/Sort.antt =====
-- `filterLatest` (internal/persistence/jsondb/jsondb.go): which files are the latest.
use light_soar.Prelude.{
  ℕ, zero, suc, ◌+◌, ◌≤◌, leb, pos, Bool, false, All, some, List, [], ◌∷◌, ◌++◌, length, Text,
  text_eq, if◌then◌else◌, if_ind, if_split, ◌≡◌, refl, sym, ap, ◌∙◌, subst, arith,
}
use light_soar.Persistence.History.Files.{Outside}
use light_soar.Persistence.History.Defs.{
  find_timestamp, is_after, insert_by, sort_by, take_names, filter_latest,
}

-- How often a name occurs.
unfoldable pub occurs : Text → List Text → ℕ
unfolding text_eq
occurs t [] = 0
occurs t (x ∷ xs) = (if text_eq x t then 1 else 0) + occurs t xs

unfoldable drop_names : ℕ → List Text → List Text
drop_names zero names = names
drop_names (suc n) [] = []
drop_names (suc n) (x ∷ names) = drop_names n names

take-drop_names : (n : ℕ) (xs : List Text) → take_names n xs ++ drop_names n xs ≡ xs
unfolding take_names drop_names
take-drop_names zero xs = refl
take-drop_names (suc n) [] = refl
take-drop_names (suc n) (x ∷ xs) = ap (λ ys. x ∷ ys) (take-drop_names n xs)

length-take_names :
    (n : ℕ) (xs : List Text)
    → length (take_names n xs) ≡ (if leb (length xs) n then length xs else n)
unfolding take_names
length-take_names zero [] = refl
length-take_names zero (x ∷ xs) = ground arith
length-take_names (suc n) [] = ground arith
length-take_names (suc n) (x ∷ xs) = ground (arith, length-take_names n xs)

occurs-append : (t : Text) (xs ys : List Text) → occurs t (xs ++ ys) ≡ occurs t xs + occurs t ys
unfolding occurs
occurs-append t [] ys = omega arith
occurs-append t (x ∷ xs) ys = omega (arith, occurs-append t xs ys)

module _ (before : Text → Text → Bool) where
  occurs-insert_by :
      (t x : Text) (ys : List Text)
      → occurs t (insert_by before x ys) ≡ (if text_eq x t then 1 else 0) + occurs t ys
  unfolding insert_by occurs
  occurs-insert_by t x [] = refl
  occurs-insert_by t x (y ∷ ys) = ground (arith, occurs-insert_by t x ys)

  occurs-sort_by : (t : Text) (xs : List Text) → occurs t (sort_by before xs) ≡ occurs t xs
  unfolding sort_by occurs
  occurs-sort_by t [] = refl
  occurs-sort_by t (x ∷ xs) =
      occurs-insert_by t x (sort_by before xs)
      ∙ ap (λ n. (if text_eq x t then 1 else 0) + n) (occurs-sort_by t xs)

  length-insert_by : (x : Text) (ys : List Text) → length (insert_by before x ys) ≡ suc (length ys)
  unfolding insert_by
  length-insert_by x [] = refl
  length-insert_by x (y ∷ ys) = ground (arith, length-insert_by x ys)

  length-sort_by : (xs : List Text) → length (sort_by before xs) ≡ length xs
  unfolding sort_by
  length-sort_by [] = refl
  length-sort_by (x ∷ xs) =
      length-insert_by x (sort_by before xs) ∙ ap (λ n. suc n) (length-sort_by xs)

module _ (outside : Outside) where
  abbrev AtMost : Text → Text → Type 0
  AtMost x y = find_timestamp outside y ≤ find_timestamp outside x

  -- No name is later than one that stands before it.
  unfoldable pub IsLatestFirst : List Text → Type 0
  IsLatestFirst [] = Unit
  IsLatestFirst (x ∷ xs) = All (AtMost x) xs × IsLatestFirst xs

  All-weaken : (x y : Text) (zs : List Text) → AtMost x y → All (AtMost y) zs → All (AtMost x) zs
  All-weaken x y [] h k = tt
  All-weaken x y (z ∷ zs) h (k, ks) = (omega arith, All-weaken x y zs h ks)

  All-insert_by :
      (x z : Text) (ys : List Text)
      → AtMost z x
      → All (AtMost z) ys
      → All (AtMost z) (insert_by (is_after outside) x ys)
  unfolding insert_by is_after
  All-insert_by x z [] h k = (h, tt)
  All-insert_by x z (y ∷ ys) h (k, ks) =
      if_ind (All (AtMost z)) (is_after outside y x) (k, All-insert_by x z ys h ks) (h, (k, ks))

  insert_by-IsLatestFirst :
      (x : Text) (ys : List Text)
      → IsLatestFirst ys
      → IsLatestFirst (insert_by (is_after outside) x ys)
  unfolding insert_by is_after IsLatestFirst
  insert_by-IsLatestFirst x [] h = (tt, tt)
  insert_by-IsLatestFirst x (y ∷ ys) (h, hs) =
      if_split IsLatestFirst (is_after outside y x)
        (λ e. (All-insert_by x y ys (ground arith) h, insert_by-IsLatestFirst x ys hs))
        (λ e. let at = not_after e in ((at, All-weaken x y ys at h), (h, hs)))
    where
      not_after : is_after outside y x ≡ false → AtMost x y
      not_after e = ground arith

  sort_by-IsLatestFirst : (xs : List Text) → IsLatestFirst (sort_by (is_after outside) xs)
  unfolding sort_by IsLatestFirst
  sort_by-IsLatestFirst [] = tt
  sort_by-IsLatestFirst (x ∷ xs) =
      insert_by-IsLatestFirst x (sort_by (is_after outside) xs) (sort_by-IsLatestFirst xs)

  -- `filterLatest` keeps as many of the files as the limit allows, all of them if there are no more,
  -- and the kept ones are in order, the latest first, and none that is left out is later than a kept
  -- one. The limit is not below 0.
  pub filter_latest-IsLatestFirst :
      (files : List Text) (n : ℕ)
      → (kept : List Text) × (left_out : List Text) × (filter_latest outside files (pos n)
          ≡ some kept)
        × (length kept ≡ (if leb (length files) n then length files else n))
        × ((t : Text) → occurs t kept + occurs t left_out ≡ occurs t files)
        × IsLatestFirst (kept ++ left_out)
  unfolding filter_latest occurs IsLatestFirst
  filter_latest-IsLatestFirst [] n = ([], [], refl, ground arith, λ t. refl, tt)
  filter_latest-IsLatestFirst (f ∷ fs) n =
      let sorted = sort_by (is_after outside) (f ∷ fs) in
      (
        take_names n sorted,
        drop_names n sorted,
        refl,
        rw (length-take_names n sorted, length-sort_by (is_after outside) (f ∷ fs)) refl,
        λ t.
            sym (occurs-append t (take_names n sorted) (drop_names n sorted))
            ∙ ap (occurs t) (take-drop_names n sorted)
            ∙ occurs-sort_by (is_after outside) t (f ∷ fs),
        subst IsLatestFirst (sym (take-drop_names n sorted)) (sort_by-IsLatestFirst (f ∷ fs)),
      )
