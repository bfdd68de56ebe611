-- ===== src/Csv/Bounds.antt =====
-- The fields that are words.
use nyse_pillar_market_data.Prelude.{ℕ, ◌<◌, ◌≡◌, Text, arith}
use nyse_pillar_market_data.Prelude.Word.{u64_mod}
use nyse_pillar_market_data.Csv.{CsvReader}
use nyse_pillar_market_data.Csv.Fields.{
  StdNumbers, parsed, value, populate_u64, populate_u8, populate_with, parse_std_type,
}

-- What `std::from_chars` promises of a word: a value that does not fit is out of range.
pub record IsBounded {D : Type 0} (lib : StdNumbers D) : Type 0 where
  pub u64_bound :
      (text : Text) (n count : ℕ) → lib.from_chars_u64 text ≡ parsed n count → n < u64_mod
  pub u8_bound : (text : Text) (n count : ℕ) → lib.from_chars_u8 text ≡ parsed n count → n < 256

pub populate_u64-lt :
    {D : Type 0} (lib : StdNumbers D)
    → IsBounded lib
    → (idx n : ℕ) (r : CsvReader) → (populate_u64 lib idx r).1 ≡ value n
    → n < u64_mod
unfolding populate_with parse_std_type
populate_u64-lt lib bounded idx n r h = grind (arith, bounded.u64_bound)

pub populate_u8-lt :
    {D : Type 0} (lib : StdNumbers D)
    → IsBounded lib
    → (idx n : ℕ) (r : CsvReader) → (populate_u8 lib idx r).1 ≡ value n
    → n < 256
unfolding populate_with parse_std_type
populate_u8-lt lib bounded idx n r h = grind (arith, bounded.u8_bound)
