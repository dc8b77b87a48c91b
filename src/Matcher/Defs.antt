-- ===== src/Matcher/Defs.antt =====
-- `MatchPatternScanner` and `matchLine`. The lines are what the scanner gives, and the compiler of
-- regular expressions is a parameter.
use light_soar.Prelude.{
  Bool, true, false, ◌||◌, Option, none, some, List, [], ◌∷◌, if◌then◌else◌, any, Text, ascii,
  text_eq,
}
use light_soar.Command.Defs.{has_prefix}

-- `strings.Contains`
unfoldable pub contains : Text → Text → Bool
unfolding has_prefix
contains [] p = has_prefix p []
contains (c ∷ s) p = has_prefix p (c ∷ s) || contains s p

abbrev pub re_prefix : Text
re_prefix = ascii "re:"

-- The text behind `rePrefix`.
abbrev pub behind_prefix : Text → Text
behind_prefix (a ∷ b ∷ c ∷ s) = s
behind_prefix s = []

abbrev pub with_regexp : Option (Text → Bool) → List (Text → Bool) → List (Text → Bool)
with_regexp none res = res
with_regexp (some re) res = re ∷ res

abbrev pub is_empty_text : Text → Bool
is_empty_text [] = true
is_empty_text (c ∷ s) = false

module _ (compile : Text → Option (Text → Bool)) where
  -- The loop over the patterns: the expressions that compile, and the literal patterns.
  unfoldable pub compile_patterns : List Text → List (Text → Bool) × List Text
  unfolding has_prefix
  compile_patterns [] = ([], [])
  compile_patterns (p ∷ ps) =
      let (res, literals) = compile_patterns ps in
      if has_prefix re_prefix p
      then (with_regexp (compile (behind_prefix p)) res, literals)
      else (res, p ∷ literals)

-- A literal pattern and a line.
unfoldable pub literal_matches : (exact : Bool) → Text → Text → Bool
unfolding contains text_eq
literal_matches exact line p = if exact then text_eq line p else contains line p

-- `matchLine`
unfoldable pub match_line : (exact : Bool) → List (Text → Bool) × List Text → Text → Bool
unfolding literal_matches
match_line exact (res, literals) line =
    any (literal_matches exact line) literals || any (λ re. re line) res

-- Behind the first `Scan`.
unfoldable pub match_lines : (exact : Bool) → List (Text → Bool) × List Text → List Text → Bool
unfolding match_line
match_lines exact (res, literals) [] = any is_empty_text literals || any (λ re. re []) res
match_lines exact compiled (line ∷ lines) =
    match_line exact compiled line || any (match_line exact compiled) lines

-- `MatchPatternScanner`
unfoldable pub match_pattern_scanner :
    (compile : Text → Option (Text → Bool)) → (exact : Bool) → (lines patterns : List Text) → Bool
unfolding compile_patterns match_lines
match_pattern_scanner compile exact lines [] = false
match_pattern_scanner compile exact lines (p ∷ ps) =
    match_lines exact (compile_patterns compile (p ∷ ps)) lines
