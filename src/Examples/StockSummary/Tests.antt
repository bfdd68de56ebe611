-- ===== src/Examples/StockSummary/Tests.antt =====
-- The comparison on a tape of one symbol.
use nyse_pillar_market_data.Prelude.{
  ◌<◌, ◌≤◌, ◌≡◌, refl, [], ◌∷◌, Text, text_eq, text_beq, arith, length,
}
use nyse_pillar_market_data.Prelude.Word.{u64_mod}
use nyse_pillar_market_data.Double.{Ticks, ticks_double}
use nyse_pillar_market_data.Map.{Map, find, assign}
use nyse_pillar_market_data.Csv.{get_field, scan, field_start}
use nyse_pillar_market_data.Csv.Fields.{
  parse_std_type, parse_source_time, populate_string, populate_char, populate_with,
  populate_optional,
}
use nyse_pillar_market_data.Csv.Decimal.{decimal}
use nyse_pillar_market_data.Wire.{message_header, per_symbol_header}
use nyse_pillar_market_data.Wire.Trades.{wire_trade_cancel}
use nyse_pillar_market_data.Wire.Reference.{wire_taq_trade, wire_taq_trade_correction}
use nyse_pillar_market_data.Stats.{recompute_loop, fold_into_stats}
use nyse_pillar_market_data.TradeLedger.{
  TradeLedger, empty, get_daily_stats, get_symbols, store, append_raw, recompute, record_in,
  cancel_in, replace_in, record_trade, cancel_trade, replace_trade,
}
use nyse_pillar_market_data.Examples.{nearly_equal}
use nyse_pillar_market_data.Examples.Counting.{count_if}
use nyse_pillar_market_data.Examples.Loaders.{
  ReferenceSummary, load_summary_lines, load_trade_lines, load_trade_line,
}
use nyse_pillar_market_data.Examples.StockSummary.{compare_tape, compare_symbols, compare_symbol}
use nyse_pillar_market_data.Examples.StockSummary.Counts.{
  is_compared, open_matches, high_matches, low_matches, close_matches, volume_matches,
  compare_tape-counts,
}
use nyse_pillar_market_data.Examples.StockSummary.Main.{
  Report, report, Main, finishes, sequential, Main-sequential,
}
use nyse_pillar_market_data.Examples.Program.{readable, Exit, success}
use nyse_pillar_market_data.Pipeline.Run.{lines, done, done-IsJoined}
use nyse_pillar_market_data.OrderBook.Book.{new_order_book}
use nyse_pillar_market_data.OrderBook.Dispatch.{replay}
use nyse_pillar_market_data.Engine.Lifetime.{get_total, get_egress_count}
use nyse_pillar_market_data.Examples.Tests.{math, symbol, trade_lines, reference_lines}

abbrev tape : TradeLedger Ticks
tape = load_trade_lines decimal trade_lines empty

-- The closing price differs.
abbrev reference : Map Text (ReferenceSummary Ticks)
reference =
    (
      symbol,
      record {
        high_price = 95;
        low_price = 80;
        open_price = 95;
        close_price = 81;
        total_volume = 70;
      },
    )
    ∷ []

tape-symbols : length (get_symbols tape) < u64_mod
unfolding load_trade_lines load_trade_line get_symbols wire_taq_trade wire_trade_cancel
    wire_taq_trade_correction per_symbol_header message_header get_field scan field_start
    parse_std_type parse_source_time populate_string populate_char populate_with populate_optional
    find assign text_beq record_trade cancel_trade replace_trade store append_raw recompute
    record_in cancel_in replace_in recompute_loop fold_into_stats
tape-symbols = omega arith

compare_tape-counts_example :
    let t = compare_tape math reference tape in
    let symbols = get_symbols tape in
    ((t.compared ≡ count_if (is_compared math reference tape) symbols)
      × (t.compared ≤ length symbols))
    × ((t.open_match ≡ count_if (open_matches math reference tape) symbols)
        × (t.open_match ≤ t.compared))
    × ((t.high_match ≡ count_if (high_matches math reference tape) symbols)
        × (t.high_match ≤ t.compared))
    × ((t.low_match ≡ count_if (low_matches math reference tape) symbols)
        × (t.low_match ≤ t.compared))
    × ((t.close_match ≡ count_if (close_matches math reference tape) symbols)
        × (t.close_match ≤ t.compared))
    × ((t.volume_match ≡ count_if (volume_matches math reference tape) symbols)
        × (t.volume_match ≤ t.compared))
    × (t.volume_examples ≤ 5)
compare_tape-counts_example = compare_tape-counts math reference tape tape-symbols

tape_counts :
    let t = compare_tape math reference tape in
    (t.compared ≡ 1) × (t.open_match ≡ 1) × (t.close_match ≡ 0) × (t.volume_match ≡ 1)
unfolding compare_tape compare_symbols compare_symbol nearly_equal load_trade_lines load_trade_line
    get_symbols get_daily_stats wire_taq_trade wire_trade_cancel wire_taq_trade_correction
    per_symbol_header message_header get_field scan field_start parse_std_type parse_source_time
    populate_string populate_char populate_with populate_optional find assign text_beq record_trade
    cancel_trade replace_trade store append_raw recompute record_in cancel_in replace_in
    recompute_loop fold_into_stats
tape_counts = (refl, refl, refl, refl)

-- The program on a feed of one trade and one order, with the tape and a reference of these lines.
abbrev exit : Exit Report
exit = success (
    report math (load_summary_lines decimal reference_lines []) (get_total done)
      (get_egress_count done) (replay done.delivered new_order_book) tape)

run : Main decimal math (readable lines) (readable trade_lines) (readable reference_lines) exit
run =
    finishes (load_summary_lines decimal reference_lines []) done tape refl refl done-IsJoined refl
      refl

Main-sequential_example :
    exit
    ≡ sequential decimal math (readable lines) (readable trade_lines) (readable reference_lines)
Main-sequential_example =
    Main-sequential decimal math (readable lines) (readable trade_lines) (readable reference_lines)
      run
