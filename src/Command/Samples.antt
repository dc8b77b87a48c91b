-- ===== src/Command/Samples.antt =====
-- Command lines.
use light_soar.Prelude.{List, [], ◌∷◌, ◌≡◌, refl, All, Text, ascii, arith, map, text_eq}
use light_soar.Command.Defs.{
  join_command_args, split_command_args, parse_piped_command, is_space, ok, command_is_empty,
  split_command,
}
use light_soar.Command.Arguments.{split-join_no_args}
use light_soar.Command.Pipes.{
  IsCommand, print_tokens, pipeline_tokens, parse_piped_command-print, is_plain,
}

program : Unit {0}
unfolding join_command_args split_command_args parse_piped_command split_command text_eq is_space
    is_plain
program = tt

echo_grep :
    parse_piped_command (ascii "echo foo | grep \"a|b\"|wc -l")
    ≡ map (map ascii) (("echo" ∷ "foo" ∷ []) ∷ ("grep" ∷ "\"a|b\"" ∷ []) ∷ ("wc" ∷ "-l" ∷ []) ∷ [])
unfolding program
echo_grep = refl

piped : split_command (ascii "a|b") ≡ ok (ascii "a") (map ascii ("|" ∷ "b" ∷ []))
unfolding program
piped = refl

only_bars : split_command (ascii " | ") ≡ command_is_empty
unfolding program
only_bars = refl

no_args_read_back :
    split_command_args (join_command_args (ascii "ls") []) ≡ (ascii "ls", ascii "" ∷ [])
no_args_read_back = split-join_no_args (ascii "ls") refl

abbrev two_commands : List (List Text)
two_commands = (ascii "ls" ∷ ascii "-l" ∷ []) ∷ (ascii "wc" ∷ []) ∷ []

words-IsCommand : All IsCommand two_commands
unfolding program
words-IsCommand = ground arith

parse_piped_command-print_example :
    parse_piped_command (print_tokens (pipeline_tokens two_commands)) ≡ two_commands
parse_piped_command-print_example = parse_piped_command-print two_commands words-IsCommand
