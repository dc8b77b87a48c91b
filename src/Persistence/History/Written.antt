-- ===== src/Persistence/History/Written.antt =====
-- What a file holds behind a write of internal/persistence/jsondb/writer.go, and which status is then
-- read from it.
use mathlib.Core.List.{append_assoc, append-nil}
use light_soar.Prelude.{
  ℕ, ◌+◌, ◌<◌, ◌==◌, ltb, Bool, true, false, Bool-cases, Option, some, [], ◌∷◌, ◌++◌, length,
  length-append, count, Text, if◌then◌else◌, ◌≡◌, ◌⊎◌, inl, inr, refl, sym, ap, ◌∙◌, arith,
}
use light_soar.Persistence.Record.Defs.{RunRecord}
use light_soar.Persistence.History.Files.{Outside, Handle, take_text, written}
use light_soar.Persistence.History.Writer.{drop_return, newer, take_line, line_of}
use light_soar.Persistence.History.Lines.{drop_text-all}
use light_soar.Persistence.History.Parse.{last_status}

-- JSON of the status is a line that is not empty, and is read back as the status.
pub record IsJson (outside : Outside) (st : RunRecord) : Type 0 where
  pub reads : outside.from_json (outside.to_json st) ≡ some st
  pub one_line : count b'\n' (outside.to_json st) ≡ 0
  pub no_return : count b'\r' (outside.to_json st) ≡ 0
  pub some_bytes : 0 < length (outside.to_json st)

-- Nothing, or lines of which the last one is ended.
unfoldable pub ends_line : Text → Bool
ends_line [] = true
ends_line (c ∷ []) = c == b'\n'
ends_line (c ∷ d ∷ s) = ends_line (d ∷ s)

-- A write goes behind what the file holds.
abbrev pub IsAtEnd : Handle → Text → Type 0
IsAtEnd h content = (h.appends ≡ true) ⊎ (h.position ≡ length content)

take_text-all : (s : Text) → take_text (length s) s ≡ s
unfolding take_text
take_text-all [] = refl
take_text-all (c ∷ s) = ap (λ t. c ∷ t) (take_text-all s)

pub written-at_end :
    (h : Handle) (text content : Text)
    → IsAtEnd h content
    → written h text content ≡ content ++ text
unfolding written
written-at_end h text content (inl appends) = rw appends refl
written-at_end h text content (inr there) = elim (Bool-cases h.appends) [
  | inl appends ↦ rw appends refl
  | inr overwrites ↦
      rw (overwrites, there)
        (rw
          (
            take_text-all content,
            drop_text-all (length content + length text) content (omega arith),
          )
          (ap (λ t. content ++ t) (append-nil text)))
]

pub IsAtEnd-written :
    (h : Handle) (text content : Text)
    → IsAtEnd h content
    → IsAtEnd (record h { position = h.position + length text }) (content ++ text)
IsAtEnd-written h text content (inl appends) = inl appends
IsAtEnd-written h text content (inr there) = inr (omega (arith, there, length-append content text))

pub ends_line-append : (s t : Text) → ends_line (s ++ (t ++ b'\n' ∷ [])) ≡ true
unfolding ends_line
ends_line-append [] [] = refl
ends_line-append [] (d ∷ []) = refl
ends_line-append [] (d ∷ e ∷ t) = ends_line-append [] (e ∷ t)
ends_line-append (c ∷ []) [] = refl
ends_line-append (c ∷ []) (d ∷ t) = ends_line-append [] (d ∷ t)
ends_line-append (c ∷ d ∷ s) t = ends_line-append (d ∷ s) t

drop_return-none : (line : Text) → count b'\r' line ≡ 0 → drop_return line ≡ line
unfolding drop_return
drop_return-none [] h = refl
drop_return-none (c ∷ []) h = ground arith
drop_return-none (c ∷ d ∷ s) h = ap (λ t. c ∷ t) (drop_return-none (d ∷ s) (ground arith))

module _ (outside : Outside) where
  last_status-line :
      (line word : Text) (result : Option RunRecord)
      → count b'\n' line ≡ 0
      → last_status outside word result (line ++ b'\n' ∷ [])
        ≡ take_line outside (drop_return (word ++ line)) result
  unfolding last_status newer take_line
  last_status-line [] word result h =
      ap (λ t. take_line outside (drop_return t) result) (sym (append-nil word))
  last_status-line (c ∷ line) word result h = elim (Bool-cases (c == b'\n')) [
    | inl here ↦ absurd (ground (arith, here, h))
    | inr later ↦ rw later (
        last_status-line line (word ++ c ∷ []) result (ground arith)
        ∙ ap (λ t. take_line outside (drop_return t) result) (append_assoc word (c ∷ []) line))
  ]

  last_status-append :
      (c : ℕ) (s t word : Text) (result : Option RunRecord)
      → ends_line (c ∷ s) ≡ true
      → last_status outside word result (c ∷ s ++ t)
        ≡ last_status outside [] (last_status outside word result (c ∷ s)) t
  unfolding last_status ends_line newer take_line
  last_status-append c [] t word result h = rw h refl
  last_status-append c (d ∷ s) t word result h = elim (Bool-cases (c == b'\n')) [
    | inl here ↦ rw here (last_status-append d s t [] _ h)
    | inr later ↦ rw later (last_status-append d s t (word ++ c ∷ []) result h)
  ]

  module _ (st : RunRecord) (json : IsJson outside st) where
    taken : (result : Option RunRecord) → take_line outside (outside.to_json st) result ≡ some st
    unfolding newer take_line
    taken result =
        if_true (ltb 0 (length (outside.to_json st))) _ _ (ground (arith, json.some_bytes))
          (rw json.reads refl)
      where
        if_true :
            (b : Bool) (x y : Option RunRecord)
            → b ≡ true
            → x ≡ some st
            → (if b then x else y) ≡ some st
        if_true true x y h k = k
        if_true false x y h k = cc

    one_line :
        (result : Option RunRecord) → last_status outside [] result (line_of outside st) ≡ some st
    unfolding newer
    one_line result =
        last_status-line (outside.to_json st) [] result json.one_line
        ∙ ap (λ t. take_line outside t result)
            (drop_return-none (outside.to_json st) json.no_return)
        ∙ taken result

    -- Behind a whole number of lines, the status of a new line is the one that is read.
    pub last_status-line_of :
        (content : Text) (result : Option RunRecord)
        → ends_line content ≡ true
        → last_status outside [] result (content ++ line_of outside st) ≡ some st
    last_status-line_of [] result h = one_line result
    last_status-line_of (c ∷ s) result h =
        last_status-append c s (line_of outside st) [] result h
        ∙ one_line (last_status outside [] result (c ∷ s))
