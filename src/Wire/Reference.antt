-- ===== src/Wire/Reference.antt =====
-- include/schema/nyse/reference_types.hpp: the lines of the reference files.
use nyse_pillar_market_data.Prelude.{ℕ, ◌+◌, Option, Text}
use nyse_pillar_market_data.Csv.Fields.{
  StdNumbers, SourceTime, Decode, return, ◌>>=◌, populate_string, populate_char, populate_optional,
  populate_u64, populate_double, populate_source_time,
}
use nyse_pillar_market_data.Wire.{MessageHeader, PerSymbolHeader, message_header, per_symbol_header}

pub record WireStockSummary (D : Type 0) : Type 0 where
  pub header : MessageHeader
  pub source_time : SourceTime
  pub symbol : Text
  pub high_price : D
  pub low_price : D
  pub open_price : D
  pub close_price : D
  pub total_volume : ℕ

pub record WireQuote (D : Type 0) : Type 0 where
  pub header : PerSymbolHeader
  pub ask_price : D
  pub ask_volume : ℕ
  pub bid_price : D
  pub bid_volume : ℕ
  pub quote_condition : ℕ
  pub rpi_indicator : Option ℕ

pub record WireTaqTrade (D : Type 0) : Type 0 where
  pub header : PerSymbolHeader
  pub trade_id : ℕ
  pub price : D
  pub volume : ℕ
  pub trade_condition1 : Option ℕ
  pub trade_condition2 : Option ℕ
  pub trade_condition3 : Option ℕ
  pub trade_condition4 : Option ℕ

pub record WireTaqTradeCorrection (D : Type 0) : Type 0 where
  pub header : PerSymbolHeader
  pub original_trade_id : ℕ
  pub trade_id : ℕ
  pub price : D
  pub volume : ℕ
  pub trade_condition1 : Option ℕ
  pub trade_condition2 : Option ℕ
  pub trade_condition3 : Option ℕ
  pub trade_condition4 : Option ℕ

module _ {D : Type 0} (lib : StdNumbers D) where
  unfoldable pub wire_stock_summary : ℕ → Decode (WireStockSummary D)
  wire_stock_summary offset = do
    header ← message_header lib offset
    source_time ← populate_source_time lib (offset + 2)
    symbol ← populate_string (offset + 3)
    high_price ← populate_double lib (offset + 4)
    low_price ← populate_double lib (offset + 5)
    open_price ← populate_double lib (offset + 6)
    close_price ← populate_double lib (offset + 7)
    total_volume ← populate_u64 lib (offset + 8)
    return (record {
      header = header;
      source_time = source_time;
      symbol = symbol;
      high_price = high_price;
      low_price = low_price;
      open_price = open_price;
      close_price = close_price;
      total_volume = total_volume;
    })

  unfoldable pub wire_quote : ℕ → Decode (WireQuote D)
  wire_quote offset = do
    header ← per_symbol_header lib offset
    ask_price ← populate_double lib (offset + 5)
    ask_volume ← populate_u64 lib (offset + 6)
    bid_price ← populate_double lib (offset + 7)
    bid_volume ← populate_u64 lib (offset + 8)
    quote_condition ← populate_char (offset + 9)
    rpi_indicator ← populate_optional populate_char (offset + 10)
    return (record {
      header = header;
      ask_price = ask_price;
      ask_volume = ask_volume;
      bid_price = bid_price;
      bid_volume = bid_volume;
      quote_condition = quote_condition;
      rpi_indicator = rpi_indicator;
    })

  unfoldable pub wire_taq_trade : ℕ → Decode (WireTaqTrade D)
  wire_taq_trade offset = do
    header ← per_symbol_header lib offset
    trade_id ← populate_u64 lib (offset + 5)
    price ← populate_double lib (offset + 6)
    volume ← populate_u64 lib (offset + 7)
    trade_condition1 ← populate_optional populate_char (offset + 8)
    trade_condition2 ← populate_optional populate_char (offset + 9)
    trade_condition3 ← populate_optional populate_char (offset + 10)
    trade_condition4 ← populate_optional populate_char (offset + 11)
    return (record {
      header = header;
      trade_id = trade_id;
      price = price;
      volume = volume;
      trade_condition1 = trade_condition1;
      trade_condition2 = trade_condition2;
      trade_condition3 = trade_condition3;
      trade_condition4 = trade_condition4;
    })

  unfoldable pub wire_taq_trade_correction : ℕ → Decode (WireTaqTradeCorrection D)
  wire_taq_trade_correction offset = do
    header ← per_symbol_header lib offset
    original_trade_id ← populate_u64 lib (offset + 5)
    trade_id ← populate_u64 lib (offset + 6)
    price ← populate_double lib (offset + 7)
    volume ← populate_u64 lib (offset + 8)
    trade_condition1 ← populate_optional populate_char (offset + 9)
    trade_condition2 ← populate_optional populate_char (offset + 10)
    trade_condition3 ← populate_optional populate_char (offset + 11)
    trade_condition4 ← populate_optional populate_char (offset + 12)
    return (record {
      header = header;
      original_trade_id = original_trade_id;
      trade_id = trade_id;
      price = price;
      volume = volume;
      trade_condition1 = trade_condition1;
      trade_condition2 = trade_condition2;
      trade_condition3 = trade_condition3;
      trade_condition4 = trade_condition4;
    })
