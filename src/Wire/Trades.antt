-- ===== src/Wire/Trades.antt =====
-- include/schema/nyse/nyse_types.hpp: the lines about trades.
use nyse_pillar_market_data.Prelude.{ℕ, ◌+◌, Option}
use nyse_pillar_market_data.Csv.Fields.{
  StdNumbers, Decode, return, ◌>>=◌, populate_char, populate_optional, populate_u8, populate_u64,
  populate_double,
}
use nyse_pillar_market_data.Wire.{PerSymbolHeader, per_symbol_header}

pub record WireNonDisplayedTrade (D : Type 0) : Type 0 where
  pub header : PerSymbolHeader
  pub trade_id : ℕ
  pub price : D
  pub volume : ℕ
  pub printable_flag : ℕ
  pub trade_condition1 : Option ℕ
  pub trade_condition2 : Option ℕ
  pub trade_condition3 : Option ℕ
  pub trade_condition4 : Option ℕ

pub record WireCrossTrade (D : Type 0) : Type 0 where
  pub header : PerSymbolHeader
  pub cross_id : ℕ
  pub price : D
  pub volume : ℕ
  pub cross_type : ℕ

pub record WireTradeCancel : Type 0 where
  pub header : PerSymbolHeader
  pub trade_id : ℕ

pub record WireCrossCorrection : Type 0 where
  pub header : PerSymbolHeader
  pub cross_id : ℕ
  pub volume : ℕ

module _ {D : Type 0} (lib : StdNumbers D) where
  unfoldable pub wire_non_displayed_trade : ℕ → Decode (WireNonDisplayedTrade D)
  wire_non_displayed_trade offset = do
    header ← per_symbol_header lib offset
    trade_id ← populate_u64 lib (offset + 5)
    price ← populate_double lib (offset + 6)
    volume ← populate_u64 lib (offset + 7)
    printable_flag ← populate_u8 lib (offset + 8)
    trade_condition1 ← populate_optional populate_char (offset + 9)
    trade_condition2 ← populate_optional populate_char (offset + 10)
    trade_condition3 ← populate_optional populate_char (offset + 11)
    trade_condition4 ← populate_optional populate_char (offset + 12)
    return (record {
      header = header;
      trade_id = trade_id;
      price = price;
      volume = volume;
      printable_flag = printable_flag;
      trade_condition1 = trade_condition1;
      trade_condition2 = trade_condition2;
      trade_condition3 = trade_condition3;
      trade_condition4 = trade_condition4;
    })

  unfoldable pub wire_cross_trade : ℕ → Decode (WireCrossTrade D)
  wire_cross_trade offset = do
    header ← per_symbol_header lib offset
    cross_id ← populate_u64 lib (offset + 5)
    price ← populate_double lib (offset + 6)
    volume ← populate_u64 lib (offset + 7)
    cross_type ← populate_char (offset + 8)
    return (record {
      header = header;
      cross_id = cross_id;
      price = price;
      volume = volume;
      cross_type = cross_type;
    })

  unfoldable pub wire_trade_cancel : ℕ → Decode WireTradeCancel
  wire_trade_cancel offset = do
    header ← per_symbol_header lib offset
    trade_id ← populate_u64 lib (offset + 5)
    return (record { header = header; trade_id = trade_id })

  unfoldable pub wire_cross_correction : ℕ → Decode WireCrossCorrection
  wire_cross_correction offset = do
    header ← per_symbol_header lib offset
    cross_id ← populate_u64 lib (offset + 5)
    volume ← populate_u64 lib (offset + 6)
    return (record { header = header; cross_id = cross_id; volume = volume })
