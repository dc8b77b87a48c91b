-- ===== src/Digraph/Variables/Samples.antt =====
-- A map of two variables.
use light_soar.Prelude.{none, [], ◌∷◌, ascii, text_eq, if◌then◌else◌, ◌≡◌}
use light_soar.Digraph.Variables.{SyncMap, load, delete, load-delete}

abbrev two : SyncMap
two = (ascii "a", ascii "a=1") ∷ (ascii "b", ascii "b=2") ∷ []

load-delete_example :
    load (delete two (ascii "a")) (ascii "b")
    ≡ (if text_eq (ascii "a") (ascii "b") then none else load two (ascii "b"))
load-delete_example = load-delete two (ascii "a") (ascii "b")
