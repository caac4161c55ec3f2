-- ===== src/Value.antt =====
-- The Python values that pass through the program's dynamically checked parameters: what
-- `isinstance` and `type(...) is` look at.
use hackathon_open_ai.Prelude.{ℕ, ℤ, Bool, String}

-- A `datetime`: an instant in UTC, or a wall time with no zone. Both count microseconds.
pub data Moment : Type 0 where
  aware : ℕ → Moment
  naive : ℕ → Moment

mutual
  pub data Value : Type 0 where
    null : Value
    bool : Bool → Value
    int : ℤ → Value
    text : String → Value
    list : Values → Value
    dict : Fields → Value
    datetime : Moment → Value
    -- the text that `isoformat` gives of a UTC instant
    iso : ℕ → Value

  pub data Values : Type 0 where
    nil : Values
    cons : Value → Values → Values

  pub data Fields : Type 0 where
    end : Fields
    field : String → Value → Fields → Fields
