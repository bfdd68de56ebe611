-- ===== src/Examples/Tests.antt =====
-- The two programs on small files.
use nyse_pillar_market_data.Prelude.{
  true, false, none, ◌+◌, ◌-◌, ◌≡◌, ◌⊎◌, refl, List, [], ◌∷◌, some, Text, text_eq, text_beq, nat_eq,
  map, ◌==◌,
}
use nyse_pillar_market_data.Double.{Ticks, ticks_double, Ticks-IsOrdered}
use nyse_pillar_market_data.Map.{find, assign}
use nyse_pillar_market_data.Csv.{get_field, scan, field_start}
use nyse_pillar_market_data.Csv.Fields.{
  parse_std_type, parse_source_time, populate_string, populate_char, populate_with,
  populate_optional,
}
use nyse_pillar_market_data.Csv.Decimal.{decimal, decimal-IsBounded}
use nyse_pillar_market_data.Wire.{message_header, per_symbol_header}
use nyse_pillar_market_data.Wire.Trades.{wire_trade_cancel}
use nyse_pillar_market_data.Wire.Reference.{
  wire_quote, wire_stock_summary, wire_taq_trade, wire_taq_trade_correction,
}
use nyse_pillar_market_data.Stats.{recompute_loop, fold_into_stats}
use nyse_pillar_market_data.Stats.Summary.{IsSummary}
use nyse_pillar_market_data.TradeLedger.{
  empty, get_daily_stats, store, append_raw, recompute, record_in, cancel_in, replace_in,
  record_trade, cancel_trade, replace_trade,
}
use nyse_pillar_market_data.Examples.{StdMath}
use nyse_pillar_market_data.Examples.Loaders.{
  ReferenceQuote, load_summary_lines, load_quote_lines, load_quote_line, load_trade_lines,
  load_trade_line,
}
use nyse_pillar_market_data.Examples.Loaders.Last.{
  last_for, published_summary, published_quote, load-last_for,
}
use nyse_pillar_market_data.Examples.Loaders.Events.{
  file_events, line_events, entries_of, is_cancelled_by, trades_of,
}
use nyse_pillar_market_data.Examples.Loaders.Tape.{load_trade_lines-IsSummary}

abbrev pub math : StdMath Ticks
math = record {
  subtract = λ a b. (a - b) + (b - a);
  fabs = λ a. a;
  micro = 1;
  is_zero = λ a. a == 0;
}

abbrev pub symbol : Text
symbol = b'A' ∷ []

-- Trade 1, its correction to trade 2, trade 3, and the cancel of a trade that is not live any more.
abbrev pub trade_lines : List Text
trade_lines =
    (b'2' ∷ b'2' ∷ b'0' ∷ b',' ∷ b'5' ∷ b',' ∷ b'0' ∷ b'1' ∷ b':' ∷ b'0' ∷ b'0' ∷ b':' ∷ b'0' ∷ b'0'
      ∷ b'.' ∷ b'0' ∷ b'0' ∷ b'0' ∷ b'0' ∷ b'0' ∷ b'0' ∷ b'0' ∷ b'0' ∷ b'7' ∷ b',' ∷ b'A' ∷ b','
      ∷ b'7' ∷ b',' ∷ b'1' ∷ b',' ∷ b'9' ∷ b'0' ∷ b',' ∷ b'5' ∷ b'0' ∷ b',' ∷ b'@' ∷ b',' ∷ b','
      ∷ b',' ∷ [])
    ∷ (b'2' ∷ b'2' ∷ b'2' ∷ b',' ∷ b'6' ∷ b',' ∷ b'0' ∷ b'1' ∷ b':' ∷ b'0' ∷ b'0' ∷ b':' ∷ b'0'
        ∷ b'0' ∷ b'.' ∷ b'0' ∷ b'0' ∷ b'0' ∷ b'0' ∷ b'0' ∷ b'0' ∷ b'0' ∷ b'0' ∷ b'7' ∷ b',' ∷ b'A'
        ∷ b',' ∷ b'8' ∷ b',' ∷ b'1' ∷ b',' ∷ b'2' ∷ b',' ∷ b'9' ∷ b'5' ∷ b',' ∷ b'6' ∷ b'0' ∷ b','
        ∷ b'@' ∷ b',' ∷ b',' ∷ b',' ∷ [])
    ∷ (b'2' ∷ b'2' ∷ b'0' ∷ b',' ∷ b'7' ∷ b',' ∷ b'0' ∷ b'1' ∷ b':' ∷ b'0' ∷ b'0' ∷ b':' ∷ b'0'
        ∷ b'0' ∷ b'.' ∷ b'0' ∷ b'0' ∷ b'0' ∷ b'0' ∷ b'0' ∷ b'0' ∷ b'0' ∷ b'0' ∷ b'7' ∷ b',' ∷ b'A'
        ∷ b',' ∷ b'9' ∷ b',' ∷ b'3' ∷ b',' ∷ b'8' ∷ b'0' ∷ b',' ∷ b'1' ∷ b'0' ∷ b',' ∷ b'@' ∷ b','
        ∷ b',' ∷ b',' ∷ [])
    ∷ (b'2' ∷ b'2' ∷ b'1' ∷ b',' ∷ b'6' ∷ b',' ∷ b'0' ∷ b'1' ∷ b':' ∷ b'0' ∷ b'0' ∷ b':' ∷ b'0'
        ∷ b'0' ∷ b'.' ∷ b'0' ∷ b'0' ∷ b'0' ∷ b'0' ∷ b'0' ∷ b'0' ∷ b'0' ∷ b'0' ∷ b'7' ∷ b',' ∷ b'A'
        ∷ b',' ∷ b'8' ∷ b',' ∷ b'1' ∷ [])
    ∷ []

load_trade_lines-IsSummary_example :
    let stats = get_daily_stats symbol (load_trade_lines decimal trade_lines empty) in
    IsSummary (trades_of symbol (file_events decimal trade_lines)) stats
    × ((stats.open_price ≡ none)
        ⊎ (((h : Ticks) × (stats.high_price ≡ some h))
            × ((l : Ticks) × (stats.low_price ≡ some l))
            × ((c : Ticks) × (stats.close_price ≡ some c))))
load_trade_lines-IsSummary_example =
    load_trade_lines-IsSummary decimal decimal-IsBounded Ticks-IsOrdered trade_lines symbol

-- Trade 1 is cancelled by its correction, and the last cancel names no trade that is left.
trade_lines_trades :
    trades_of symbol (file_events decimal trade_lines)
    ≡ record { price = 90; volume = 50; cancelled = true }
      ∷ record { price = 95; volume = 60; cancelled = false }
      ∷ record { price = 80; volume = 10; cancelled = false }
      ∷ []
unfolding file_events line_events entries_of is_cancelled_by wire_taq_trade wire_trade_cancel
    wire_taq_trade_correction per_symbol_header message_header get_field scan field_start
    parse_std_type parse_source_time populate_string populate_char populate_with populate_optional
    text_beq
trade_lines_trades = refl

trade_lines_open :
    (get_daily_stats symbol (load_trade_lines decimal trade_lines empty)).open_price ≡ some 95
unfolding load_trade_lines load_trade_line wire_taq_trade wire_trade_cancel
    wire_taq_trade_correction wire_quote wire_stock_summary message_header per_symbol_header
    get_field scan field_start parse_std_type parse_source_time populate_string populate_char
    populate_with populate_optional find assign text_beq record_trade cancel_trade replace_trade
    store append_raw recompute record_in cancel_in replace_in get_daily_stats recompute_loop
    fold_into_stats
trade_lines_open = refl

-- Two quotes, the zero quote of the close, and a summary.
abbrev pub reference_lines : List Text
reference_lines =
    (b'1' ∷ b'4' ∷ b'0' ∷ b',' ∷ b'5' ∷ b',' ∷ b'0' ∷ b'1' ∷ b':' ∷ b'0' ∷ b'0' ∷ b':' ∷ b'0' ∷ b'0'
      ∷ b'.' ∷ b'0' ∷ b'0' ∷ b'0' ∷ b'0' ∷ b'0' ∷ b'0' ∷ b'0' ∷ b'0' ∷ b'7' ∷ b',' ∷ b'A' ∷ b','
      ∷ b'7' ∷ b',' ∷ b'1' ∷ b'0' ∷ b'1' ∷ b',' ∷ b'2' ∷ b'0' ∷ b',' ∷ b'9' ∷ b'9' ∷ b',' ∷ b'3'
      ∷ b'0' ∷ b',' ∷ b'R' ∷ b',' ∷ [])
    ∷ (b'1' ∷ b'4' ∷ b'0' ∷ b',' ∷ b'6' ∷ b',' ∷ b'0' ∷ b'1' ∷ b':' ∷ b'0' ∷ b'0' ∷ b':' ∷ b'0'
        ∷ b'0' ∷ b'.' ∷ b'0' ∷ b'0' ∷ b'0' ∷ b'0' ∷ b'0' ∷ b'0' ∷ b'0' ∷ b'0' ∷ b'7' ∷ b',' ∷ b'A'
        ∷ b',' ∷ b'8' ∷ b',' ∷ b'1' ∷ b'0' ∷ b'2' ∷ b',' ∷ b'2' ∷ b'0' ∷ b',' ∷ b'1' ∷ b'0' ∷ b'0'
        ∷ b',' ∷ b'3' ∷ b'0' ∷ b',' ∷ b'R' ∷ b',' ∷ [])
    ∷ (b'1' ∷ b'4' ∷ b'0' ∷ b',' ∷ b'7' ∷ b',' ∷ b'0' ∷ b'1' ∷ b':' ∷ b'0' ∷ b'0' ∷ b':' ∷ b'0'
        ∷ b'0' ∷ b'.' ∷ b'0' ∷ b'0' ∷ b'0' ∷ b'0' ∷ b'0' ∷ b'0' ∷ b'0' ∷ b'0' ∷ b'7' ∷ b',' ∷ b'A'
        ∷ b',' ∷ b'9' ∷ b',' ∷ b'0' ∷ b',' ∷ b'0' ∷ b',' ∷ b'0' ∷ b',' ∷ b'0' ∷ b',' ∷ b'R' ∷ b','
        ∷ [])
    ∷ (b'2' ∷ b'2' ∷ b'3' ∷ b',' ∷ b'8' ∷ b',' ∷ b'0' ∷ b'1' ∷ b':' ∷ b'0' ∷ b'0' ∷ b':' ∷ b'0'
        ∷ b'0' ∷ b'.' ∷ b'0' ∷ b'0' ∷ b'0' ∷ b'0' ∷ b'0' ∷ b'0' ∷ b'0' ∷ b'0' ∷ b'7' ∷ b',' ∷ b'A'
        ∷ b',' ∷ b'9' ∷ b'5' ∷ b',' ∷ b'8' ∷ b'0' ∷ b',' ∷ b'9' ∷ b'5' ∷ b',' ∷ b'8' ∷ b'0' ∷ b','
        ∷ b'7' ∷ b'0' ∷ [])
    ∷ []

load-last_for_example :
    (find symbol (load_summary_lines decimal reference_lines [])
      ≡ last_for symbol (map (published_summary decimal) reference_lines))
    × (find symbol (load_quote_lines decimal math reference_lines [])
        ≡ last_for symbol (map (published_quote decimal math) reference_lines))
load-last_for_example = load-last_for decimal math reference_lines symbol

abbrev pub quote : ReferenceQuote Ticks
quote = record {
  ask_price = 102;
  ask_volume = 20;
  bid_price = 100;
  bid_volume = 30;
  nanos_since_midnight = 3600000000007;
}

last_quote : find symbol (load_quote_lines decimal math reference_lines []) ≡ some quote
unfolding load_quote_lines load_quote_line wire_taq_trade wire_trade_cancel
    wire_taq_trade_correction wire_quote wire_stock_summary message_header per_symbol_header
    get_field scan field_start parse_std_type parse_source_time populate_string populate_char
    populate_with populate_optional find assign text_beq
last_quote = refl
