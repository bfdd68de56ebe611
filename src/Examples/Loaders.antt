-- ===== src/Examples/Loaders.antt =====
-- examples/stock-summary/main.cpp and examples/bbo-validation/main.cpp: `LoadStockSummary`,
-- `LoadLastQuote` and `LoadTrades`.
pub mod Last
pub mod Events
pub mod Entries
pub mod Tracking
pub mod Tape
use nyse_pillar_market_data.Prelude.{
  ℕ, Bool, true, false, ◌&&◌, List, [], ◌∷◌, Option, none, some, Text, text_eq, if◌then◌else◌,
}
use nyse_pillar_market_data.Double.{Double}
use nyse_pillar_market_data.Map.{Map, assign}
use nyse_pillar_market_data.Csv.{csv_reader, get_field}
use nyse_pillar_market_data.Csv.Fields.{StdNumbers, value, unexpected}
use nyse_pillar_market_data.Wire.Trades.{wire_trade_cancel}
use nyse_pillar_market_data.Wire.Reference.{
  WireStockSummary, wire_stock_summary, WireQuote, wire_quote, wire_taq_trade,
  wire_taq_trade_correction,
}
use nyse_pillar_market_data.TradeLedger.{
  TradeLedger, empty, record_trade, cancel_trade, replace_trade,
}
use nyse_pillar_market_data.Examples.{StdMath, has_type}

pub record ReferenceSummary (D : Type 0) : Type 0 where
  pub high_price : D
  pub low_price : D
  pub open_price : D
  pub close_price : D
  pub total_volume : ℕ

pub record ReferenceQuote (D : Type 0) : Type 0 where
  pub ask_price : D
  pub ask_volume : ℕ
  pub bid_price : D
  pub bid_volume : ℕ
  pub nanos_since_midnight : ℕ

module _ {D : Type 0} where
  abbrev pub summary_of : WireStockSummary D → ReferenceSummary D
  summary_of m = record {
    high_price = m.high_price;
    low_price = m.low_price;
    open_price = m.open_price;
    close_price = m.close_price;
    total_volume = m.total_volume;
  }

  abbrev pub quote_of : WireQuote D → ReferenceQuote D
  quote_of m = record {
    ask_price = m.ask_price;
    ask_volume = m.ask_volume;
    bid_price = m.bid_price;
    bid_volume = m.bid_volume;
    nanos_since_midnight = m.header.source_time.nanos_since_midnight;
  }

module _ {D : Type 0} (lib : StdNumbers D) where
  -- A round of the loop of `LoadStockSummary`.
  unfoldable pub load_summary_line :
      Text → Map Text (ReferenceSummary D) → Map Text (ReferenceSummary D)
  load_summary_line line summaries =
      let (reader, msg_type) = get_field 0 (csv_reader line) in
      if has_type (b'2' ∷ b'2' ∷ b'3' ∷ []) msg_type
      then (elim (wire_stock_summary lib 0 reader).1 [
        | unexpected e ↦ summaries
        | value m ↦ assign m.symbol (summary_of m) summaries
      ])
      else summaries

  unfoldable pub load_summary_lines :
      List Text → Map Text (ReferenceSummary D) → Map Text (ReferenceSummary D)
  load_summary_lines [] summaries = summaries
  load_summary_lines (l ∷ ls) summaries = load_summary_lines ls (load_summary_line l summaries)

  abbrev pub load_stock_summary : Option (List Text) → Option (Map Text (ReferenceSummary D))
  load_stock_summary none = none
  load_stock_summary (some lines) = some (load_summary_lines lines [])

  -- A round of the loop of `LoadLastQuote`; the quote of the close, all zero, is skipped.
  unfoldable pub load_quote_line :
      StdMath D → Text → Map Text (ReferenceQuote D) → Map Text (ReferenceQuote D)
  load_quote_line math line quotes =
      let (reader, msg_type) = get_field 0 (csv_reader line) in
      if has_type (b'1' ∷ b'4' ∷ b'0' ∷ []) msg_type
      then (elim (wire_quote lib 0 reader).1 [
        | unexpected e ↦ quotes
        | value m ↦
            if math.is_zero m.ask_price && math.is_zero m.bid_price
            then quotes
            else assign m.header.symbol (quote_of m) quotes
      ])
      else quotes

  unfoldable pub load_quote_lines :
      StdMath D → List Text → Map Text (ReferenceQuote D) → Map Text (ReferenceQuote D)
  load_quote_lines math [] quotes = quotes
  load_quote_lines math (l ∷ ls) quotes = load_quote_lines math ls (load_quote_line math l quotes)

  abbrev pub load_last_quote : StdMath D → Option (List Text) → Option (Map Text (ReferenceQuote D))
  load_last_quote math none = none
  load_last_quote math (some lines) = some (load_quote_lines math lines [])

  module _ ⦃d : Double D⦄ where
    -- A round of the loop of `LoadTrades`; the answers of the ledger are not read.
    unfoldable pub load_trade_line : Text → TradeLedger D → TradeLedger D
    load_trade_line line tape =
        let (reader, msg_type) = get_field 0 (csv_reader line) in
        if has_type (b'2' ∷ b'2' ∷ b'0' ∷ []) msg_type
        then (elim (wire_taq_trade lib 0 reader).1 [
          | unexpected e ↦ tape
          | value m ↦ record_trade m.header.symbol m.trade_id m.price m.volume tape
        ])
        else if has_type (b'2' ∷ b'2' ∷ b'1' ∷ []) msg_type
        then (elim (wire_trade_cancel lib 0 reader).1 [
          | unexpected e ↦ tape
          | value m ↦ (cancel_trade m.header.symbol m.trade_id tape).0
        ])
        else if has_type (b'2' ∷ b'2' ∷ b'2' ∷ []) msg_type
        then (elim (wire_taq_trade_correction lib 0 reader).1 [
          | unexpected e ↦ tape
          | value m ↦
              (replace_trade m.header.symbol m.original_trade_id m.trade_id m.price m.volume tape).0
        ])
        else tape

    unfoldable pub load_trade_lines : List Text → TradeLedger D → TradeLedger D
    load_trade_lines [] tape = tape
    load_trade_lines (l ∷ ls) tape = load_trade_lines ls (load_trade_line l tape)

    abbrev pub load_trades : Option (List Text) → Option (TradeLedger D)
    load_trades none = none
    load_trades (some lines) = some (load_trade_lines lines empty)
