-- ===== src/OrderBook/Book.antt =====
-- The state of `OrderBook`, and its private helpers on the book of one symbol.
use nyse_pillar_market_data.Prelude.{
  ℕ, ◌-◌, Bool, true, false, List, [], ◌∷◌, ◌++◌, Option, none, some, Text, text_eq, ◌==◌, length,
  if◌then◌else◌,
}
use nyse_pillar_market_data.Prelude.Word.{add64}
use nyse_pillar_market_data.Double.{Double, less, greater}
use nyse_pillar_market_data.Map.{Map, get_or}
use nyse_pillar_market_data.Levels.{Levels, add_volume, take_volume}
use nyse_pillar_market_data.Message.{SymbolIndexMapping, Imbalance}
use nyse_pillar_market_data.Stats.{
  DailyStats, TradeRecord, no_stats, or_first, or_better, recompute_loop,
}

pub record PriceLevel (D : Type 0) : Type 0 where
  pub price : D
  pub aggregate_volume : ℕ

pub record TopOfBook (D : Type 0) : Type 0 where
  pub best_bid : Option (PriceLevel D)
  pub best_ask : Option (PriceLevel D)

pub record LiveOrder (D : Type 0) : Type 0 where
  pub price : D
  pub volume : ℕ
  pub side : ℕ

-- `OrderBook::TradeRecord` has the fields of `TradeLedger::TradeRecord` and is not declared again.
pub record SymbolBook (D : Type 0) : Type 0 where
  pub orders : Map ℕ (LiveOrder D)
  pub bid_levels : Levels D
  pub ask_levels : Levels D
  pub stats : DailyStats D
  pub halted : Bool
  pub last_rpi_indicator : Option ℕ
  pub info : Option (SymbolIndexMapping D)
  pub last_imbalance : Option (Imbalance D)
  pub trade_log : List (TradeRecord D)
  pub trades_by_id : Map ℕ ℕ
  pub crosses_by_id : Map ℕ ℕ

pub record OrderBook (D : Type 0) : Type 0 where
  pub books : Map Text (SymbolBook D)
  pub book_build_failures : ℕ
  pub trade_ledger_failures : ℕ

-- `side == 'B'`; every other character is the ask side.
abbrev pub is_bid : ℕ → Bool
is_bid side = side == b'B'

module _ {D : Type 0} where
  abbrev pub empty_book : SymbolBook D
  empty_book = record {
    orders = [];
    bid_levels = [];
    ask_levels = [];
    stats = no_stats;
    halted = false;
    last_rpi_indicator = none;
    info = none;
    last_imbalance = none;
    trade_log = [];
    trades_by_id = [];
    crosses_by_id = [];
  }

  abbrev pub new_order_book : OrderBook D
  new_order_book = record { books = []; book_build_failures = 0; trade_ledger_failures = 0 }

  abbrev pub get_or_create_book : Text → OrderBook D → SymbolBook D
  get_or_create_book symbol ob = get_or symbol empty_book ob.books

  module _ ⦃d : Double D⦄ where
    unfoldable pub add_level : SymbolBook D → ℕ → D → ℕ → SymbolBook D
    add_level book side price volume =
        if is_bid side
        then record book { bid_levels = add_volume greater price volume book.bid_levels }
        else record book { ask_levels = add_volume less price volume book.ask_levels }

    -- The answer is false, and the book as before, where the level is missing or too small.
    unfoldable pub remove_level : SymbolBook D → ℕ → D → ℕ → SymbolBook D × Bool
    remove_level book side price volume =
        if is_bid side
        then (elim (take_volume greater price volume book.bid_levels) [
          | none ↦ (book, false)
          | some levels ↦ (record book { bid_levels = levels }, true)
        ])
        else (elim (take_volume less price volume book.ask_levels) [
          | none ↦ (book, false)
          | some levels ↦ (record book { ask_levels = levels }, true)
        ])

    -- The book with the trade in its log and statistics, and the index of the trade.
    unfoldable pub append_trade : SymbolBook D → D → ℕ → SymbolBook D × ℕ
    append_trade book price volume =
        let log =
          book.trade_log ++ record { price = price; volume = volume; cancelled = false } ∷ [] in
        (
          record book {
            stats = record {
              open_price = or_first book.stats.open_price price;
              high_price = or_better greater book.stats.high_price price;
              low_price = or_better less book.stats.low_price price;
              close_price = some price;
              total_volume = add64 book.stats.total_volume volume;
            };
            trade_log = log;
          },
          length log - 1,
        )

    unfoldable pub recompute_stats : SymbolBook D → SymbolBook D
    recompute_stats book = record book { stats = recompute_loop no_stats book.trade_log }
