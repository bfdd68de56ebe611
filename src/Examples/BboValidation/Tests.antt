-- ===== src/Examples/BboValidation/Tests.antt =====
-- The validation on two orders, one of them after the reference quote.
use nyse_pillar_market_data.Prelude.{
  ℕ, ◌≤◌, ◌≡◌, ◌⊎◌, refl, List, [], ◌∷◌, none, some, Text, text_eq, text_beq, nat_eq, arith, length,
}
use nyse_pillar_market_data.Double.{Ticks, ticks_double}
use nyse_pillar_market_data.Map.{Map, find, assign}
use nyse_pillar_market_data.Message.{Message, add_order, message_symbol}
use nyse_pillar_market_data.OrderBook.Book.{TopOfBook, add_level}
use nyse_pillar_market_data.OrderBook.Handlers.{apply_add_order, place_order}
use nyse_pillar_market_data.Levels.{find_level, add_volume}
use nyse_pillar_market_data.OrderBook.Dispatch.{
  with_book, handle, on_message, replay, get_top_of_book,
}
use nyse_pillar_market_data.Examples.Counting.{count_if}
use nyse_pillar_market_data.Examples.Loaders.{ReferenceQuote, load_quote_lines, load_last_quote}
use nyse_pillar_market_data.Examples.BboValidation.{
  new_validation, callback, validate, compare_entries, no_tally,
}
use nyse_pillar_market_data.Examples.BboValidation.Frozen.{Snapshot}
use nyse_pillar_market_data.Examples.BboValidation.Counts.{
  is_compared, bid_price_matches, bid_volume_matches, ask_price_matches, ask_volume_matches,
  compare_entries-counts,
}
use nyse_pillar_market_data.Csv.Decimal.{decimal}
use nyse_pillar_market_data.Engine.Lifetime.{get_total, get_egress_count}
use nyse_pillar_market_data.Pipeline.Run.{lines, done, done-IsJoined}
use nyse_pillar_market_data.Examples.Program.{readable, Exit, success, feed_of}
use nyse_pillar_market_data.Examples.BboValidation.Main.{
  Report, report, Main, finishes, sequential, bbo_main-Snapshot,
}
use nyse_pillar_market_data.Examples.Tests.{math, symbol, quote, reference_lines}

abbrev reference : Map Text (ReferenceQuote Ticks)
reference = (symbol, quote) ∷ []

abbrev order : ℕ → ℕ → ℕ → Message Ticks
order nanos id price = add_order (record {
  nanos_since_midnight = nanos;
  symbol = symbol;
  symbol_seq_num = 0;
  order_id = id;
  price = price;
  volume = 30;
  side = b'B';
  firm_id = [];
})

abbrev feed : List (Message Ticks)
feed = order 3600000000006 1 100 ∷ order 3600000000008 2 101 ∷ []

-- The first order is in the snapshot, and the second is not.
abbrev frozen : Map Text (TopOfBook Ticks)
frozen =
    (
      symbol,
      record { best_bid = some (record { price = 100; aggregate_volume = 30 }); best_ask = none },
    )
    ∷ []

validate_frozen : (validate reference feed new_validation).frozen ≡ frozen
unfolding validate callback replay on_message with_book handle message_symbol find assign text_beq
    apply_add_order place_order add_level find_level add_volume get_top_of_book
validate_frozen = refl

compare_entries-counts_example :
    let t = compare_entries reference math frozen no_tally in
    ((t.compared ≡ count_if (is_compared reference math) frozen) × (t.compared ≤ length frozen))
    × ((t.bid_price_match ≡ count_if (bid_price_matches reference math) frozen)
        × (t.bid_price_match ≤ t.compared))
    × ((t.bid_volume_match ≡ count_if (bid_volume_matches reference math) frozen)
        × (t.bid_volume_match ≤ t.compared))
    × ((t.ask_price_match ≡ count_if (ask_price_matches reference math) frozen)
        × (t.ask_price_match ≤ t.compared))
    × ((t.ask_volume_match ≡ count_if (ask_volume_matches reference math) frozen)
        × (t.ask_volume_match ≤ t.compared))
    × (t.mismatch_examples ≤ 5)
compare_entries-counts_example = compare_entries-counts reference math frozen (omega arith)

-- The program on a feed of one trade and one order, with a reference of these lines.
abbrev quotes : Map Text (ReferenceQuote Ticks)
quotes = load_quote_lines decimal math reference_lines []

abbrev exit : Exit Report
exit = success (
    report math quotes (get_total done) (get_egress_count done)
      (validate quotes done.delivered new_validation))

run : Main decimal math (readable lines) (readable reference_lines) exit
run = finishes quotes done refl refl done-IsJoined refl

bbo_main-Snapshot_example :
    (exit ≡ sequential decimal math (readable lines) (readable reference_lines))
    × ((load_last_quote decimal math (some reference_lines) ≡ none)
        ⊎ ((reference : Map Text (ReferenceQuote Ticks)) × (load_last_quote decimal math
                (some reference_lines)
              ≡ some reference)
            × Snapshot reference symbol (feed_of decimal (readable lines)) (
                find symbol
                  (validate reference (feed_of decimal (readable lines)) new_validation).frozen)))
bbo_main-Snapshot_example =
    bbo_main-Snapshot decimal math (readable lines) (readable reference_lines) symbol run
