-- ===== src/Matcher/Reference.antt =====
-- `MatchPatternScanner` and each pattern on each line.
use light_soar.Prelude.{
  Bool, true, false, ◌||◌, Option, none, some, List, [], ◌∷◌, if◌then◌else◌, any, Text, text_eq,
  ◌≡◌, refl, sym, ap, ◌∙◌, arith,
}
use light_soar.Command.Defs.{has_prefix}
use light_soar.Matcher.Defs.{
  contains, re_prefix, behind_prefix, with_regexp, is_empty_text, compile_patterns, literal_matches,
  match_line, match_lines, match_pattern_scanner,
}

abbrev pub expression_matches : Option (Text → Bool) → Text → Bool
expression_matches none line = false
expression_matches (some re) line = re line

abbrev pub or_empty : List Text → List Text
or_empty [] = [] ∷ []
or_empty (line ∷ lines) = line ∷ lines

or-false : (b : Bool) → b || false ≡ b
or-false true = refl
or-false false = refl

any-ext : {A : Type 0} {f g : A → Bool} (xs : List A) → ((x : A) → f x ≡ g x) → any f xs ≡ any g xs
any-ext [] h = refl
any-ext (x ∷ xs) h = λ i. h x i || any-ext xs h i

any-never : {A : Type 0} (xs : List A) → any (λ (x : A). false) xs ≡ false
any-never [] = refl
any-never (x ∷ xs) = any-never xs

literal_matches-empty : (exact : Bool) (p : Text) → is_empty_text p ≡ literal_matches exact [] p
unfolding literal_matches contains has_prefix text_eq
literal_matches-empty true [] = refl
literal_matches-empty false [] = refl
literal_matches-empty true (c ∷ p) = refl
literal_matches-empty false (c ∷ p) = refl

on_empty :
    (res : List (Text → Bool)) (literals : List Text) (exact : Bool)
    → match_lines exact (res, literals) [] ≡ match_line exact (res, literals) []
unfolding match_lines match_line
on_empty res literals exact =
    ap (λ b. b || any (λ re. re []) res) (any-ext literals (literal_matches-empty exact))

module _ (compile : Text → Option (Text → Bool)) (exact : Bool) where
  -- One pattern on one line: an expression that does not compile matches nothing.
  unfoldable pub matches : Text → Text → Bool
  unfolding literal_matches has_prefix
  matches line p =
      if has_prefix re_prefix p
      then expression_matches (compile (behind_prefix p)) line
      else literal_matches exact line p

  collected :
      (b : Bool) (o : Option (Text → Bool)) (p line : Text) (res : List (Text → Bool))
      (literals : List Text)
      → match_line exact (if b then (with_regexp o res, literals) else (res, p ∷ literals)) line ≡ (
          (if b then expression_matches o line else literal_matches exact line p)
          || match_line exact (res, literals) line)
  unfolding match_line
  collected true none p line res literals = refl
  collected true (some re) p line res literals = ground arith
  collected false o p line res literals = ground arith

  match_line-any :
      (line : Text) (ps : List Text)
      → match_line exact (compile_patterns compile ps) line ≡ any (matches line) ps
  unfolding compile_patterns matches match_line
  match_line-any line [] = refl
  match_line-any line (p ∷ ps) =
      collected (has_prefix re_prefix p) (compile (behind_prefix p)) p line
        (compile_patterns compile ps).0 (compile_patterns compile ps).1
      ∙ ap (λ b. matches line p || b) (match_line-any line ps)

  match_lines-any :
      (lines ps : List Text)
      → match_lines exact (compile_patterns compile ps) lines
        ≡ any (λ line. any (matches line) ps) (or_empty lines)
  unfolding match_lines
  match_lines-any [] ps =
      on_empty (compile_patterns compile ps).0 (compile_patterns compile ps).1 exact
      ∙ match_line-any [] ps
      ∙ sym (or-false _)
  match_lines-any (line ∷ lines) ps = any-ext (line ∷ lines) (λ l. match_line-any l ps)

  -- `MatchPatternScanner` answers whether some pattern matches some line, each pattern by itself, where
  -- no line at all counts as one that is empty.
  pub match_pattern_scanner-any :
      (lines ps : List Text)
      → match_pattern_scanner compile exact lines ps
        ≡ any (λ line. any (matches line) ps) (or_empty lines)
  unfolding match_pattern_scanner
  match_pattern_scanner-any lines [] = sym (any-never (or_empty lines))
  match_pattern_scanner-any lines (p ∷ ps) = match_lines-any lines (p ∷ ps)
