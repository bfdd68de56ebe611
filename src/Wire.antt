-- ===== src/Wire.antt =====
-- include/schema/nyse/nyse_types.hpp: the structures of a line, each with the constructor that reads its
-- fields in order from an offset. Here the two headers.
pub mod Orders
pub mod Trades
pub mod Status
pub mod Reference
use nyse_pillar_market_data.Prelude.{ℕ, ◌+◌, Option, Text}
use nyse_pillar_market_data.Csv.{CsvReader}
use nyse_pillar_market_data.Csv.Fields.{
  StdNumbers, SourceTime, Decode, return, ◌>>=◌, populate_string, populate_char, populate_optional,
  populate_u8, populate_u64, populate_double, populate_source_time,
}

pub record MessageHeader : Type 0 where
  pub msg_type : ℕ
  pub sequence_number : ℕ

pub record PerSymbolHeader : Type 0 where
  pub header : MessageHeader
  pub source_time : SourceTime
  pub symbol : Text
  pub symbol_seq_num : ℕ

module _ {D : Type 0} (lib : StdNumbers D) where
  unfoldable pub message_header : ℕ → Decode MessageHeader
  message_header offset = do
    msg_type ← populate_u8 lib offset
    sequence_number ← populate_u64 lib (offset + 1)
    return (record { msg_type = msg_type; sequence_number = sequence_number })

  unfoldable pub per_symbol_header : ℕ → Decode PerSymbolHeader
  unfolding message_header
  per_symbol_header offset = do
    header ← message_header offset
    source_time ← populate_source_time lib (offset + 2)
    symbol ← populate_string (offset + 3)
    symbol_seq_num ← populate_u64 lib (offset + 4)
    return (record {
      header = header;
      source_time = source_time;
      symbol = symbol;
      symbol_seq_num = symbol_seq_num;
    })
