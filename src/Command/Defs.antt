-- ===== src/Command/Defs.antt =====
-- `JoinCommandArgs`, `SplitCommandArgs`, `ParsePipedCommand` and `SplitCommand`. A text is here the
-- list of its runes, as the loops of this file walk them.
use light_soar.Prelude.{
  ℕ, zero, suc, ◌-◌, leb, ◌==◌, Bool, true, false, not, ◌&&◌, ◌||◌, Option, none, some, List, [],
  ◌∷◌, ◌++◌, if◌then◌else◌, length, Text, ascii, text_eq,
}

-- `strings.Join`
unfoldable pub join : Text → List Text → Text
join sep [] = []
join sep (t ∷ []) = t
join sep (t ∷ u ∷ ts) = t ++ (sep ++ join sep (u ∷ ts))

unfoldable pub has_prefix : Text → Text → Bool
has_prefix [] s = true
has_prefix (p ∷ ps) [] = false
has_prefix (p ∷ ps) (c ∷ s) = p == c && has_prefix ps s

-- `strings.Split` by a separator that is not empty: the runes of a separator that was found are
-- skipped, and `word` is what stands behind the last one.
unfoldable pub split_from : Text → (skip : ℕ) → (word : Text) → Text → List Text
unfolding has_prefix
split_from sep skip word [] = word ∷ []
split_from sep (suc k) word (c ∷ s) = split_from sep k word s
split_from sep zero word (c ∷ s) = elim (has_prefix sep (c ∷ s)) [
  | true ↦ word ∷ split_from sep (length sep - 1) [] s
  | false ↦ split_from sep zero (word ++ c ∷ []) s
]

-- What stands before the first space, and what stands behind it if there is one.
unfoldable pub cut_space : Text → Text × Option Text
cut_space [] = ([], none)
cut_space (c ∷ s) =
    let (before, behind) = cut_space s in if c == b' ' then ([], some s) else (c ∷ before, behind)

-- `ArgsDelimiter`, whose runes are U+222F, U+14F0 and U+2668.
abbrev pub args_delimiter : Text
args_delimiter = 0x222F ∷ 0x14F0 ∷ 0x2668 ∷ []

-- `JoinCommandArgs`
unfoldable pub join_command_args : Text → List Text → Text
unfolding join
join_command_args cmd args = cmd ++ b' ' ∷ join args_delimiter args

abbrev split_args : Option Text → List Text
unfolding split_from
split_args none = []
split_args (some s) = split_from args_delimiter 0 [] s

-- `SplitCommandArgs`
unfoldable pub split_command_args : Text → Text × List Text
unfolding cut_space split_from
split_command_args s = let (command, behind) = cut_space s in (command, split_args behind)

-- `unicode.IsSpace`
unfoldable pub is_space : ℕ → Bool
is_space r =
    (leb 0x09 r && leb r 0x0D)
    || r == 0x20
    || r == 0x85
    || r == 0xA0
    || r == 0x1680
    || (leb 0x2000 r && leb r 0x200A)
    || r == 0x2028
    || r == 0x2029
    || r == 0x202F
    || r == 0x205F
    || r == 0x3000

-- The variables of the first loop of `ParsePipedCommand`.
pub record Scan : Type 0 where
  pub in_quote : Bool
  pub in_backtick : Bool
  pub in_escape : Bool
  pub current : Text
  pub tokens : List Text

abbrev pub push : ℕ → Scan → Scan
push r st = record st { current = st.current ++ r ∷ [] }

abbrev is_nil : Text → Bool
is_nil [] = true
is_nil (c ∷ s) = false

-- `if len(current) > 0 { ... }`
unfoldable pub flush : Scan → Scan
flush st =
    if is_nil st.current
    then st
    else record st { tokens = st.tokens ++ st.current ∷ []; current = [] }

-- The body of the first loop.
unfoldable pub scan_rune : ℕ → Scan → Scan
unfolding flush is_space
scan_rune r st =
    if st.in_escape
    then record (push r st) { in_escape = false }
    else if r == b'\\'
    then record (push r st) { in_escape = true }
    else if r == b'"' && not st.in_backtick
    then record (push r st) { in_quote = not st.in_quote }
    else if r == b'`'
    then record (push r st) { in_backtick = not st.in_backtick }
    else if r == b'|' && not st.in_quote && not st.in_backtick
    then (let s = flush st in record s { tokens = s.tokens ++ ascii "|" ∷ [] })
    else if is_space r && not st.in_quote && not st.in_backtick
    then flush st
    else push r st

unfoldable pub scan : Text → Scan → Scan
unfolding scan_rune
scan [] st = st
scan (r ∷ s) st = scan s (scan_rune r st)

abbrev pub scan_start : Scan
scan_start = record {
  in_quote = false;
  in_backtick = false;
  in_escape = false;
  current = [];
  tokens = [];
}

unfoldable pub tokens_of : Text → List Text
unfolding scan flush
tokens_of s = (flush (scan s scan_start)).tokens

abbrev pub add_command : List Text → List (List Text) → List (List Text)
add_command [] pipeline = pipeline
add_command (t ∷ ts) pipeline = pipeline ++ (t ∷ ts) ∷ []

-- The second loop, over the tokens: the command that is read, and the pipeline before it.
unfoldable pub group : List Text → List Text → List (List Text) → List (List Text)
unfolding text_eq
group [] current pipeline = add_command current pipeline
group (t ∷ ts) current pipeline = elim (text_eq t (ascii "|")) [
  | true ↦ group ts [] (add_command current pipeline)
  | false ↦ group ts (current ++ t ∷ []) pipeline
]

-- `ParsePipedCommand`, which never fails
unfoldable pub parse_piped_command : Text → List (List Text)
unfolding tokens_of group
parse_piped_command s = group (tokens_of s) [] []

-- How `SplitCommand` ends; an index out of range is a panic.
pub data Split : Type 0 where
  command_is_empty panics : Split
  ok : (command : Text) (args : List Text) → Split

abbrev pub piped_args : List (List Text) → List Text
piped_args [] = []
piped_args (cmd ∷ cmds) = ascii "|" ∷ (cmd ++ piped_args cmds)

abbrev pub split_pipeline : List (List Text) → Split
split_pipeline [] = command_is_empty
split_pipeline ([] ∷ []) = command_is_empty
split_pipeline ((c ∷ args) ∷ []) = ok c args
split_pipeline ([] ∷ cmd ∷ cmds) = panics
split_pipeline ((c ∷ args) ∷ cmd ∷ cmds) = ok c (args ++ piped_args (cmd ∷ cmds))

-- `SplitCommand`
unfoldable pub split_command : Text → Split
unfolding parse_piped_command
split_command s = split_pipeline (parse_piped_command s)
