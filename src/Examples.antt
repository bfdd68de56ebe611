-- ===== src/Examples.antt =====
-- examples/: the two programs that compare the library with the reference files of the exchange. The
-- functions of <cmath> and the constants are a parameter. A file is the list of its lines, or `none` where
-- it cannot be opened; a loader then throws, which is `none` again.
pub mod Counting
pub mod Loaders
pub mod Program
pub mod StockSummary
pub mod BboValidation
mod Tests
use nyse_pillar_market_data.Prelude.{
  ℕ, Bool, true, false, List, [], ◌∷◌, Option, none, some, Text, text_beq,
}
use nyse_pillar_market_data.Double.{Double}

pub record StdMath (D : Type 0) : Type 0 where
  pub subtract : D → D → D
  pub fabs : D → D
  pub micro : D  -- 1e-6
  pub is_zero : D → Bool  -- `== 0.0`

unfoldable pub nearly_equal : {D : Type 0} ⦃d : Double D⦄ → StdMath D → D → D → Bool
nearly_equal ⦃d⦄ math a b = d.lt (math.fabs (math.subtract a b)) math.micro

-- Whether the first field, as `GetField(0)` gives it, is a message type.
abbrev pub has_type : Text → Option Text → Bool
has_type type none = false
has_type type (some field) = text_beq field type
