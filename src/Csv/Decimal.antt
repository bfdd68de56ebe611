-- ===== src/Csv/Decimal.antt =====
-- Numbers as the tests read them: unsigned and decimal, and a price is a whole number of ticks.
use nyse_pillar_market_data.Prelude.{
  ℕ, ◌+◌, ◌-◌, ◌*◌, ◌&&◌, [], ◌∷◌, Text, arith, leb, ltb, ◌==◌, if◌then◌else◌, nat_eq,
}
use nyse_pillar_market_data.Prelude.Word.{u64_mod}
use nyse_pillar_market_data.Double.{Ticks}
use nyse_pillar_market_data.Csv.Fields.{
  StdNumbers, FromChars, parsed, invalid_argument, result_out_of_range,
}
use nyse_pillar_market_data.Csv.Bounds.{IsBounded}

abbrev pub digits : Text → ℕ → ℕ → ℕ × ℕ
digits [] acc count = (acc, count)
digits (c ∷ t) acc count =
    let rest = digits t (acc * 10 + (c - 48)) (count + 1) in
    if leb 48 c && leb c 57 then rest else (acc, count)

abbrev pub from_chars : ℕ → Text → FromChars ℕ
from_chars bound text =
    let (n, count) = digits text 0 0 in
    if count == 0
    then invalid_argument
    else (if ltb n bound then parsed n count else result_out_of_range)

abbrev pub decimal : StdNumbers Ticks
decimal = record {
  from_chars_u8 = from_chars 256;
  from_chars_u64 = from_chars u64_mod;
  from_chars_double = from_chars u64_mod;
}

pub decimal-IsBounded : IsBounded decimal
decimal-IsBounded = record {
  u64_bound = λ text n count h. ground arith;
  u8_bound = λ text n count h. ground arith;
}
