-- ===== src/Command/Arguments.antt =====
-- Splitting what was joined.
use light_soar.Prelude.{
  ℕ, some, List, [], ◌∷◌, ◌++◌, count, All, Text, ◌≡◌, ◌≢◌, refl, ap, ◌∙◌, sym, arith,
}
use mathlib.Core.List.{append_assoc, append-nil}
use light_soar.Command.Defs.{
  join, has_prefix, split_from, cut_space, args_delimiter, join_command_args, split_command_args,
}

cut_space-append : (cmd s : Text) → count b' ' cmd ≡ 0 → cut_space (cmd ++ b' ' ∷ s) ≡ (cmd, some s)
unfolding cut_space
cut_space-append [] s h = refl
cut_space-append (c ∷ cmd) s h = ground (arith, cut_space-append cmd s)

split_rune :
    (c : ℕ) (word s : Text)
    → c ≢ 0x222F
    → split_from args_delimiter 0 word (c ∷ s) ≡ split_from args_delimiter 0 (word ++ c ∷ []) s
unfolding split_from has_prefix
split_rune c word s h = ground (arith, h)

split_delimiter :
    (word s : Text)
    → split_from args_delimiter 0 word (args_delimiter ++ s)
      ≡ word ∷ split_from args_delimiter 0 [] s
unfolding split_from has_prefix
split_delimiter word s = refl

-- A word without the delimiter's first rune is read on.
split-word :
    (w word rest : Text)
    → count 0x222F w ≡ 0
    → split_from args_delimiter 0 word (w ++ rest) ≡ split_from args_delimiter 0 (word ++ w) rest
split-word [] word rest h = ap (λ t. split_from args_delimiter 0 t rest) (sym (append-nil word))
split-word (c ∷ w) word rest h =
    split_rune c word (w ++ rest) (ground (arith, h))
    ∙ split-word w (word ++ c ∷ []) rest (ground (arith, h))
    ∙ ap (λ t. split_from args_delimiter 0 t rest) (append_assoc word (c ∷ []) w)

split_last : (t : Text) → split_from args_delimiter 0 t [] ≡ t ∷ []
unfolding split_from
split_last t = refl

split-join :
    (t : Text) (ts : List Text)
    → All (λ (u : Text). count 0x222F u ≡ 0) (t ∷ ts)
    → split_from args_delimiter 0 [] (join args_delimiter (t ∷ ts)) ≡ t ∷ ts
unfolding join
split-join t [] h =
    ap (split_from args_delimiter 0 []) (sym (append-nil t)) ∙ split-word t [] [] h.0 ∙ split_last t
split-join t (u ∷ ts) h =
    let more = join args_delimiter (u ∷ ts) in
    let read : split_from args_delimiter 0 [] (t ++ (args_delimiter ++ more))
        ≡ split_from args_delimiter 0 t (args_delimiter ++ more) =
      split-word t [] (args_delimiter ++ more) h.0 in
    let rest : split_from args_delimiter 0 [] more ≡ u ∷ ts = split-join u ts h.1 in
    read ∙ split_delimiter t more ∙ ap (λ us. t ∷ us) rest

module _ (cmd : Text) (no_space : count b' ' cmd ≡ 0) where
  -- A command without a space and at least one argument, none of which holds the first rune of the
  -- delimiter, are read back from what `JoinCommandArgs` makes of them.
  pub split-join_command_args :
      (t : Text) (ts : List Text)
      → All (λ (u : Text). count 0x222F u ≡ 0) (t ∷ ts)
      → split_command_args (join_command_args cmd (t ∷ ts)) ≡ (cmd, t ∷ ts)
  unfolding split_command_args join_command_args
  split-join_command_args t ts h =
      rw (cut_space-append cmd (join args_delimiter (t ∷ ts)) no_space)
        (ap (λ args. (cmd, args)) (split-join t ts h))

  -- A command without a space and no arguments are read back with one argument, which is empty.
  pub split-join_no_args : split_command_args (join_command_args cmd []) ≡ (cmd, [] ∷ [])
  unfolding split_command_args join_command_args join split_from
  split-join_no_args = rw (cut_space-append cmd [] no_space)
