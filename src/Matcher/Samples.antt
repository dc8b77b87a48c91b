-- ===== src/Matcher/Samples.antt =====
-- Patterns and the lines of a small log.
use light_soar.Prelude.{
  ◌==◌, Bool, true, false, Option, none, some, List, [], ◌∷◌, any, Text, ascii, text_eq, ◌≡◌, refl,
  length,
}
use light_soar.Matcher.Defs.{match_pattern_scanner, contains, literal_matches}
use light_soar.Matcher.Reference.{matches, or_empty, match_pattern_scanner-any}

program : Unit {0}
unfolding match_pattern_scanner contains literal_matches text_eq
program = tt

-- The expression `3` matches the lines of three bytes, and no other compiles.
abbrev compile : Text → Option (Text → Bool)
compile [] = none
compile (c ∷ s) = if_three (c == b'3')
  where
    if_three : Bool → Option (Text → Bool)
    if_three true = some (λ line. length line == 3)
    if_three false = none

abbrev log : List Text
log = ascii "start" ∷ ascii "end" ∷ []

by_part : match_pattern_scanner compile false log (ascii "tar" ∷ []) ≡ true
unfolding program
by_part = refl

exact : match_pattern_scanner compile true log (ascii "tar" ∷ ascii "re:x" ∷ []) ≡ false
unfolding program
exact = refl

by_expression : match_pattern_scanner compile true log (ascii "tar" ∷ ascii "re:3" ∷ []) ≡ true
unfolding program
by_expression = refl

no_lines : match_pattern_scanner compile true [] (ascii "" ∷ []) ≡ true
unfolding program
no_lines = refl

match_pattern_scanner-any_example :
    match_pattern_scanner compile true log (ascii "re:3" ∷ [])
    ≡ any (λ line. any (matches compile true line) (ascii "re:3" ∷ [])) (or_empty log)
match_pattern_scanner-any_example = match_pattern_scanner-any compile true log (ascii "re:3" ∷ [])
