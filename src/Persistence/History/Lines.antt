-- ===== src/Persistence/History/Lines.antt =====
-- The lines of a text, as `readLineFrom` (internal/persistence/jsondb/jsondb.go) cuts them.
use light_soar.Prelude.{
  ℕ, zero, suc, ◌+◌, ◌≤◌, ◌==◌, true, false, Bool-cases, [], ◌∷◌, length, Text, ◌≡◌, ◌⊎◌, subst,
  inl, inr, refl, sym, ap, ◌∙◌, arith,
}
use light_soar.Persistence.History.Files.{drop_text}
use light_soar.Persistence.History.Writer.{drop_return, cut_line}

drop_text-empty : (n : ℕ) → drop_text n [] ≡ []
unfolding drop_text
drop_text-empty zero = refl
drop_text-empty (suc n) = refl

pub drop_text_add : (n m : ℕ) (s : Text) → drop_text (n + m) s ≡ drop_text m (drop_text n s)
unfolding drop_text
drop_text_add zero m s = ap (λ k. drop_text k s) (omega arith)
drop_text_add (suc n) m [] = drop_text-empty (suc n + m) ∙ sym (drop_text-empty m)
drop_text_add (suc n) m (c ∷ s) =
    subst (λ k. drop_text k (c ∷ s) ≡ drop_text m (drop_text n s)) {x = suc (n + m)} {y = suc n + m}
      (omega arith) (drop_text_add n m s)

pub drop_text-all : (n : ℕ) (s : Text) → length s ≤ n → drop_text n s ≡ []
unfolding drop_text
drop_text-all zero [] h = refl
drop_text-all zero (c ∷ s) h = absurd (omega arith)
drop_text-all (suc n) [] h = refl
drop_text-all (suc n) (c ∷ s) h = drop_text-all n s (omega arith)

-- What is behind the next line, whose first `n` bytes were taken.
pub drop_text-next :
    (offset n : ℕ) (content : Text) {rest : Text}
    → drop_text offset content ≡ rest
    → drop_text (offset + n + 1) content ≡ drop_text (suc n) rest
drop_text-next offset n content {rest} e =
    subst (λ k. drop_text k content ≡ drop_text (suc n) rest) {x = offset + suc n}
      {y = offset + n + 1} (omega arith)
      (drop_text_add offset (suc n) content ∙ ap (drop_text (suc n)) e)

pub length-drop_text : (n : ℕ) (s : Text) → length (drop_text n s) ≤ length s
unfolding drop_text
length-drop_text zero s = omega arith
length-drop_text (suc n) [] = omega arith
length-drop_text (suc n) (c ∷ s) = omega (arith, length-drop_text n s)

pub drop_return-cases :
    (line : Text) → (drop_return line ≡ line) ⊎ (suc (length (drop_return line)) ≡ length line)
unfolding drop_return
drop_return-cases [] = inl refl
drop_return-cases (c ∷ []) = elim (Bool-cases (c == b'\r')) [
  | inl h ↦ inr (rw h refl)
  | inr h ↦ inl (rw h refl)
]
drop_return-cases (c ∷ d ∷ s) = elim (drop_return-cases (d ∷ s)) [
  | inl h ↦ inl (rw h refl)
  | inr h ↦ inr (rw h refl)
]

-- What is behind the end of the first line.
pub cut_line_found :
    (s : Text)
    → (cut_line s).1 ≡ true
    → drop_text (length (cut_line s).0) s ≡ b'\n' ∷ drop_text (suc (length (cut_line s).0)) s
unfolding cut_line drop_text
cut_line_found [] h = cc
cut_line_found (c ∷ s) h = ground (arith, cut_line_found s)

pub cut_line_none : (s : Text) → (cut_line s).1 ≡ false → (cut_line s).0 ≡ s
unfolding cut_line
cut_line_none [] h = refl
cut_line_none (c ∷ s) h = ground (arith, cut_line_none s)
