-- ===== src/Digraph/Value.antt =====
-- The values that a workflow file holds, as the YAML library gives them (`any`). The entries of a
-- map stand in the order in which a `range` over it gives them.
use light_soar.Prelude.{ℤ, Bool, Text}

mutual
  pub data Value : Type 0 where
    null : Value
    str : Text → Value
    int : ℤ → Value
    bool : Bool → Value
    other : Text → Value
    arr : Values → Value
    obj : Entries → Value

  pub data Values : Type 0 where
    nil : Values
    cons : Value → Values → Values

  pub data Entries : Type 0 where
    end : Entries
    entry : Value → Value → Entries → Entries

abbrev pub is_null : Value → Bool
is_null null = Bool.true
is_null _ = Bool.false
