-- ===== src/Examples/StockSummary/Main.antt =====
-- examples/stock-summary/main.cpp: `main`, over every interleaving of the engine that it runs, and the
-- same program without threads.
use nyse_pillar_market_data.Prelude.{
  ℕ, ◌%◌, ◌≡◌, refl, ◌∙◌, Bool, if◌then◌else◌, true, false, ◌&&◌, none, some, Text, text_eq, arith,
  length,
}
use nyse_pillar_market_data.Prelude.Word.{u64_mod}
use nyse_pillar_market_data.Double.{Double}
use nyse_pillar_market_data.Map.{Map}
use nyse_pillar_market_data.Message.{Message}
use nyse_pillar_market_data.OrderBook.Book.{OrderBook, new_order_book}
use nyse_pillar_market_data.OrderBook.Dispatch.{replay, get_book_build_failures}
use nyse_pillar_market_data.TradeLedger.{TradeLedger, get_symbols, get_failure_count}
use nyse_pillar_market_data.Sequence.{ParserData}
use nyse_pillar_market_data.Csv.Fields.{StdNumbers}
use nyse_pillar_market_data.Engine.Lifetime.{LifetimeState, get_total, get_egress_count}
use nyse_pillar_market_data.Examples.{StdMath}
use nyse_pillar_market_data.Examples.Loaders.{ReferenceSummary, load_stock_summary, load_trades}
use nyse_pillar_market_data.Examples.Program.{
  File, exists, open_file, lines_of, Exit, failure, aborted, success, IsJoined, IsJoined-feed,
  feed_of,
}
use nyse_pillar_market_data.Examples.StockSummary.{Tally, compare_tape}

-- The numbers that are printed.
pub record Report : Type 0 where
  pub reference_symbols : ℕ
  pub lines_parsed : ℕ
  pub messages_delivered : ℕ
  pub book_build_failures : ℕ
  pub symbols_traded : ℕ
  pub trade_ledger_failures : ℕ
  pub tally : Tally

module _ {D : Type 0} ⦃d : Double D⦄ (math : StdMath D) where
  abbrev pub report : Map Text (ReferenceSummary D) → ℕ → ℕ → OrderBook D → TradeLedger D → Report
  report reference lines_parsed messages_delivered book tape = record {
    reference_symbols = length reference;
    lines_parsed = lines_parsed;
    messages_delivered = messages_delivered;
    book_build_failures = get_book_build_failures book;
    symbols_traded = length (get_symbols tape);
    trade_ledger_failures = get_failure_count tape;
    tally = compare_tape math reference tape;
  }

module _ {D : Type 0} ⦃d : Double D⦄ (lib : StdNumbers D) (math : StdMath D) where
  module _ (integrated trades stock_sum : File) where
    abbrev pub all_exist : Bool
    all_exist = exists integrated && exists trades && exists stock_sum

    -- A run of `main` and how it ends.
    pub data Main (exit : Exit Report) : Type 0 where
      misses : all_exist ≡ false → exit ≡ failure → Main exit
      no_reference :
          all_exist ≡ true
          → load_stock_summary lib (open_file stock_sum) ≡ none
          → exit ≡ aborted
          → Main exit
      no_trades :
          (reference : Map Text (ReferenceSummary D))
          (s : LifetimeState (Message D) Text ParserData)
          → all_exist ≡ true
          → load_stock_summary lib (open_file stock_sum) ≡ some reference
          → IsJoined lib integrated s
          → load_trades lib (open_file trades) ≡ none
          → exit ≡ aborted
          → Main exit
      finishes :
          (reference : Map Text (ReferenceSummary D))
          (s : LifetimeState (Message D) Text ParserData) (tape : TradeLedger D)
          → all_exist ≡ true
          → load_stock_summary lib (open_file stock_sum) ≡ some reference
          → IsJoined lib integrated s
          → load_trades lib (open_file trades) ≡ some tape
          → exit
            ≡ success (
                report math reference
                  (get_total s)
                  (get_egress_count s)
                  (replay s.delivered new_order_book)
                  tape)
          → Main exit

    -- `main` without threads.
    unfoldable pub sequential : Exit Report
    sequential =
        if exists integrated && exists trades && exists stock_sum
        then (elim (load_stock_summary lib (open_file stock_sum)) [
          | none ↦ aborted
          | some reference ↦ elim (load_trades lib (open_file trades)) [
            | none ↦ aborted
            | some tape ↦ success (
                report math reference (length (lines_of integrated) % u64_mod)
                  (length (feed_of lib integrated) % u64_mod)
                  (replay (feed_of lib integrated) new_order_book) tape)
          ]
        ])
        else failure

    -- Whatever the interleaving of the engine's threads, `main` ends as the program without threads does:
    -- with 1 if a file is missing; by an exception if the reference or the trades cannot be opened; and else
    -- with its report, in which the order book is that of the messages of the feed's lines in order, none if
    -- the feed cannot be opened.
    pub Main-sequential : {exit : Exit Report} → Main exit → exit ≡ sequential
    unfolding sequential
    Main-sequential (misses e h) = ground arith
    Main-sequential (no_reference e r h) = ground arith
    Main-sequential (no_trades reference s e r j t h) = ground arith
    Main-sequential (finishes reference s tape e r j t h) =
        let (taken, count, total) = IsJoined-feed lib integrated s j in
        h ∙ rw (e, r, t, taken, count, total) refl
