-- ===== src/Command/Pipes.antt =====
-- What `ParsePipedCommand` gives.
use light_soar.Prelude.{
  ℕ, ◌==◌, Bool, true, false, not, ◌||◌, List, [], ◌∷◌, ◌++◌, All, Text, ascii, text_eq, ◌≡◌, ◌≢◌,
  refl, ap, ◌∙◌, sym, subst, arith, inl, inr, ◌⊎◌,
}
use mathlib.Core.List.{append_assoc, append-nil}
use light_soar.Command.Defs.{
  is_space, Scan, flush, scan_rune, scan, scan_start, tokens_of, add_command, group,
  parse_piped_command, panics, split_pipeline, split_command,
}

-- A rune that stands for itself.
unfoldable pub is_plain : ℕ → Bool
unfolding is_space
is_plain r = not (r == b'\\' || r == b'"' || r == b'`' || r == b'|' || is_space r)

abbrev pub IsWord : Text → Type 0
IsWord w = (w ≢ []) × All (λ r. is_plain r ≡ true) w

abbrev pub IsCommand : List Text → Type 0
IsCommand cmd = (cmd ≢ []) × All IsWord cmd

-- Each token with a space behind it.
abbrev pub print_tokens : List Text → Text
print_tokens [] = []
print_tokens (t ∷ ts) = t ++ b' ' ∷ print_tokens ts

abbrev pub pipeline_tokens : List (List Text) → List Text
pipeline_tokens [] = []
pipeline_tokens (cmd ∷ []) = cmd
pipeline_tokens (cmd ∷ next ∷ cmds) = cmd ++ ascii "|" ∷ pipeline_tokens (next ∷ cmds)

-- Between words, outside of quotes.
abbrev idle : Text → List Text → Scan
idle current tokens = record scan_start { current = current; tokens = tokens }

scan_plain :
    (r : ℕ) (current : Text) (tokens : List Text)
    → is_plain r ≡ true
    → scan_rune r (idle current tokens) ≡ idle (current ++ r ∷ []) tokens
unfolding scan_rune is_plain
scan_plain r current tokens h = ground (arith, h)

scan-word :
    (w current : Text) (tokens : List Text) (rest : Text)
    → All (λ r. is_plain r ≡ true) w
    → scan (w ++ rest) (idle current tokens) ≡ scan rest (idle (current ++ w) tokens)
unfolding scan
scan-word [] current tokens rest h = ap (λ t. scan rest (idle t tokens)) (sym (append-nil current))
scan-word (r ∷ w) current tokens rest h =
    ap (scan (w ++ rest)) (scan_plain r current tokens h.0)
    ∙ scan-word w (current ++ r ∷ []) tokens rest h.1
    ∙ ap (λ t. scan rest (idle t tokens)) (append_assoc current (r ∷ []) w)

scan_gap :
    (w : Text) (tokens : List Text)
    → w ≢ []
    → scan_rune b' ' (idle w tokens) ≡ idle [] (tokens ++ w ∷ [])
unfolding scan_rune
scan_gap [] tokens h = absurd (h refl)
scan_gap (c ∷ w) tokens h = refl

scan-print :
    (ts tokens : List Text)
    → All (λ t. (t ≡ ascii "|") ⊎ IsWord t) ts
    → scan (print_tokens ts) (idle [] tokens) ≡ idle [] (tokens ++ ts)
unfolding scan scan_rune
scan-print [] tokens h = ap (idle []) (sym (append-nil tokens))
scan-print (t ∷ ts) tokens (inl bar, h) =
    subst (λ u. scan (u ++ b' ' ∷ print_tokens ts) (idle [] tokens) ≡ idle [] (tokens ++ u ∷ ts))
      (sym bar)
      (scan-print ts (tokens ++ ascii "|" ∷ []) h
        ∙ ap (idle []) (append_assoc tokens (ascii "|" ∷ []) ts))
scan-print (t ∷ ts) tokens (inr word, h) =
    scan-word t [] tokens (b' ' ∷ print_tokens ts) word.1
    ∙ ap (scan (print_tokens ts)) (scan_gap t tokens word.0)
    ∙ scan-print ts (tokens ++ t ∷ []) h
    ∙ ap (idle []) (append_assoc tokens (t ∷ []) ts)

-- A word is not a bar.
word-ne-bar : (t : Text) → IsWord t → text_eq t (ascii "|") ≡ false
unfolding text_eq is_plain
word-ne-bar [] h = refl
word-ne-bar (c ∷ []) h = ground (arith, h.1.0)
word-ne-bar (c ∷ d ∷ t) h = ground arith

group_word :
    (w : Text) (rest current : List Text) (pipeline : List (List Text))
    → text_eq w (ascii "|") ≡ false
    → group (w ∷ rest) current pipeline ≡ group rest (current ++ w ∷ []) pipeline
unfolding group
group_word w rest current pipeline h = ground (arith, h)

group_bar :
    (rest current : List Text) (pipeline : List (List Text))
    → group (ascii "|" ∷ rest) current pipeline ≡ group rest [] (add_command current pipeline)
unfolding group text_eq
group_bar rest current pipeline = refl

group-words :
    (ws rest current : List Text) (pipeline : List (List Text))
    → All IsWord ws
    → group (ws ++ rest) current pipeline ≡ group rest (current ++ ws) pipeline
group-words [] rest current pipeline h = ap (λ c. group rest c pipeline) (sym (append-nil current))
group-words (w ∷ ws) rest current pipeline h =
    group_word w (ws ++ rest) current pipeline (word-ne-bar w h.0)
    ∙ group-words ws rest (current ++ w ∷ []) pipeline h.1
    ∙ ap (λ c. group rest c pipeline) (append_assoc current (w ∷ []) ws)

add_command-concat :
    (cmd : List Text) (pipeline : List (List Text))
    → cmd ≢ []
    → add_command cmd pipeline ≡ pipeline ++ cmd ∷ []
add_command-concat [] pipeline h = absurd (h refl)
add_command-concat (t ∷ ts) pipeline h = refl

group-pipeline :
    (cmds pipeline : List (List Text))
    → All IsCommand cmds
    → group (pipeline_tokens cmds) [] pipeline ≡ pipeline ++ cmds
unfolding group
group-pipeline [] pipeline h = sym (append-nil pipeline)
group-pipeline (cmd ∷ []) pipeline h =
    ap (λ ts. group ts [] pipeline) (sym (append-nil cmd))
    ∙ group-words cmd [] [] pipeline h.0.1
    ∙ add_command-concat cmd pipeline h.0.0
group-pipeline (cmd ∷ next ∷ cmds) pipeline h =
    let others = ascii "|" ∷ pipeline_tokens (next ∷ cmds) in
    group-words cmd others [] pipeline h.0.1
    ∙ group_bar (pipeline_tokens (next ∷ cmds)) cmd pipeline
    ∙ ap (group (pipeline_tokens (next ∷ cmds)) []) (add_command-concat cmd pipeline h.0.0)
    ∙ group-pipeline (next ∷ cmds) (pipeline ++ cmd ∷ []) h.1
    ∙ append_assoc pipeline (cmd ∷ []) (next ∷ cmds)

words-All :
    (ws rest : List Text)
    → All IsWord ws
    → All (λ t. (t ≡ ascii "|") ⊎ IsWord t) rest
    → All (λ t. (t ≡ ascii "|") ⊎ IsWord t) (ws ++ rest)
words-All [] rest h k = k
words-All (w ∷ ws) rest h k = (inr h.0, words-All ws rest h.1 k)

pipeline_tokens-All :
    (cmds : List (List Text))
    → All IsCommand cmds
    → All (λ t. (t ≡ ascii "|") ⊎ IsWord t) (pipeline_tokens cmds)
pipeline_tokens-All [] h = tt
pipeline_tokens-All (cmd ∷ []) h =
    subst (All (λ t. (t ≡ ascii "|") ⊎ IsWord t)) (append-nil cmd) (words-All cmd [] h.0.1 tt)
pipeline_tokens-All (cmd ∷ next ∷ cmds) h =
    words-All cmd (ascii "|" ∷ pipeline_tokens (next ∷ cmds)) h.0.1
      (inl refl, pipeline_tokens-All (next ∷ cmds) h.1)

-- A pipeline of commands, none empty, whose words are not empty and hold no space, quote, backtick,
-- backslash or bar, is read back from its tokens and the bars, each with a space behind it.
pub parse_piped_command-print :
    (cmds : List (List Text))
    → All IsCommand cmds
    → parse_piped_command (print_tokens (pipeline_tokens cmds)) ≡ cmds
unfolding parse_piped_command tokens_of
parse_piped_command-print cmds h =
    ap (λ (st : Scan). group (flush st).tokens [] [])
      (scan-print (pipeline_tokens cmds) [] (pipeline_tokens-All cmds h))
    ∙ group-pipeline cmds [] h

-- No command of the pipeline is empty.
abbrev AllNonEmpty : List (List Text) → Type 0
AllNonEmpty = All (λ (cmd : List Text). cmd ≢ [])

concat-AllNonEmpty :
    (cmds : List (List Text)) (cmd : List Text)
    → AllNonEmpty cmds
    → cmd ≢ []
    → AllNonEmpty (cmds ++ cmd ∷ [])
concat-AllNonEmpty [] cmd h k = (k, tt)
concat-AllNonEmpty (c ∷ cmds) cmd h k = (h.0, concat-AllNonEmpty cmds cmd h.1 k)

add_command-AllNonEmpty :
    (cmd : List Text) (cmds : List (List Text))
    → AllNonEmpty cmds
    → AllNonEmpty (add_command cmd cmds)
add_command-AllNonEmpty [] cmds h = h
add_command-AllNonEmpty (t ∷ ts) cmds h = concat-AllNonEmpty cmds (t ∷ ts) h (cc)

group-AllNonEmpty :
    (ts current : List Text) (cmds : List (List Text))
    → AllNonEmpty cmds
    → AllNonEmpty (group ts current cmds)
unfolding group
group-AllNonEmpty [] current cmds h = add_command-AllNonEmpty current cmds h
group-AllNonEmpty (t ∷ ts) current cmds h =
    elim (text_eq t (ascii "|"))
      as (λ b. AllNonEmpty (elim b [
        | true ↦ group ts [] (add_command current cmds)
        | false ↦ group ts (current ++ t ∷ []) cmds
      ])) [
        | true ↦
            group-AllNonEmpty ts [] (add_command current cmds)
              (add_command-AllNonEmpty current cmds h)
        | false ↦ group-AllNonEmpty ts (current ++ t ∷ []) cmds h
      ]

split_pipeline-ne-panics :
    (cmds : List (List Text)) → AllNonEmpty cmds → split_pipeline cmds ≢ panics
split_pipeline-ne-panics [] h = λ e. cc
split_pipeline-ne-panics ([] ∷ []) h = λ e. cc
split_pipeline-ne-panics ((c ∷ args) ∷ []) h = λ e. cc
split_pipeline-ne-panics ([] ∷ cmd ∷ cmds) h = absurd (h.0 refl)
split_pipeline-ne-panics ((c ∷ args) ∷ cmd ∷ cmds) h = λ e. cc

-- `SplitCommand` never takes an element of an empty command.
pub split_command-ne-panics : (s : Text) → split_command s ≢ panics
unfolding split_command parse_piped_command
split_command-ne-panics s =
    split_pipeline-ne-panics (group (tokens_of s) [] []) (group-AllNonEmpty (tokens_of s) [] [] tt)
