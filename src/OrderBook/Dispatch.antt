-- ===== src/OrderBook/Dispatch.antt =====
-- `OrderBook::OnMessage` and the public accessors.
use nyse_pillar_market_data.Prelude.{
  ℕ, Bool, false, List, [], ◌∷◌, Option, none, some, Text, text_eq, length,
}
use nyse_pillar_market_data.Prelude.Word.{add64}
use nyse_pillar_market_data.Double.{Double}
use nyse_pillar_market_data.Map.{Map, find, assign, keys}
use nyse_pillar_market_data.Levels.{Levels}
use nyse_pillar_market_data.Message.{
  Message, SymbolIndexMapping, Imbalance, symbol_index_mapping, security_status, add_order,
  modify_order, delete_order, order_execution, replace_order, retail_price_improvement, imbalance,
  add_order_refresh, non_displayed_trade, cross_trade, trade_cancel, cross_correction,
  message_symbol,
}
use nyse_pillar_market_data.Stats.{DailyStats, no_stats}
use nyse_pillar_market_data.OrderBook.Book.{
  PriceLevel, TopOfBook, SymbolBook, OrderBook, get_or_create_book,
}
use nyse_pillar_market_data.OrderBook.Handlers.{
  Report, fine, build_failure, ledger_failure, apply_symbol_index_mapping, apply_security_status,
  apply_add_order, apply_modify_order, apply_delete_order, apply_order_execution,
  apply_replace_order, apply_retail_price_improvement, apply_imbalance, apply_add_order_refresh,
  apply_non_displayed_trade, apply_cross_trade, apply_trade_cancel, apply_cross_correction,
}

-- The counters after a report.
abbrev pub count_build : Report → ℕ → ℕ
count_build fine n = n
count_build build_failure n = add64 n 1
count_build ledger_failure n = n

abbrev pub count_ledger : Report → ℕ → ℕ
count_ledger fine n = n
count_ledger build_failure n = n
count_ledger ledger_failure n = add64 n 1

module _ {D : Type 0} where
  -- A method that works on `GetOrCreateBook(symbol)`: the book is there afterwards in any case.
  unfoldable pub with_book :
      Text → (SymbolBook D → SymbolBook D × Report) → OrderBook D → OrderBook D
  with_book symbol method ob =
      let (book, report) = method (get_or_create_book symbol ob) in
      record {
        books = assign symbol book ob.books;
        book_build_failures = count_build report ob.book_build_failures;
        trade_ledger_failures = count_ledger report ob.trade_ledger_failures;
      }

  module _ ⦃d : Double D⦄ where
    -- The `switch` of `OnMessage`.
    unfoldable pub handle : Message D → SymbolBook D → SymbolBook D × Report
    handle (symbol_index_mapping m) = apply_symbol_index_mapping m
    handle (security_status m) = apply_security_status m
    handle (add_order m) = apply_add_order m
    handle (modify_order m) = apply_modify_order m
    handle (delete_order m) = apply_delete_order m
    handle (order_execution m) = apply_order_execution m
    handle (replace_order m) = apply_replace_order m
    handle (retail_price_improvement m) = apply_retail_price_improvement m
    handle (imbalance m) = apply_imbalance m
    handle (add_order_refresh m) = apply_add_order_refresh m
    handle (non_displayed_trade m) = apply_non_displayed_trade m
    handle (cross_trade m) = apply_cross_trade m
    handle (trade_cancel m) = apply_trade_cancel m
    handle (cross_correction m) = apply_cross_correction m

    unfoldable pub on_message : Message D → OrderBook D → OrderBook D
    on_message m ob = with_book (message_symbol m) (handle m) ob

    -- The messages of a feed, one after the other.
    unfoldable pub replay : List (Message D) → OrderBook D → OrderBook D
    replay [] ob = ob
    replay (m ∷ ms) ob = replay ms (on_message m ob)

  -- `levels.begin()`, if there is one.
  abbrev pub best_level : Levels D → Option (PriceLevel D)
  best_level [] = none
  best_level ((p, v) ∷ l) = some (record { price = p; aggregate_volume = v })

  unfoldable pub get_top_of_book : Text → OrderBook D → TopOfBook D
  get_top_of_book symbol ob = elim (find symbol ob.books) [
    | none ↦ record { best_bid = none; best_ask = none }
    | some book ↦ record {
      best_bid = best_level book.bid_levels;
      best_ask = best_level book.ask_levels;
    }
  ]

  unfoldable pub get_daily_stats : Text → OrderBook D → DailyStats D
  get_daily_stats symbol ob = elim (find symbol ob.books) [
    | none ↦ no_stats
    | some book ↦ book.stats
  ]

  unfoldable pub is_halted : Text → OrderBook D → Bool
  is_halted symbol ob = elim (find symbol ob.books) [ none ↦ false | some book ↦ book.halted ]

  unfoldable pub get_symbol_info : Text → OrderBook D → Option (SymbolIndexMapping D)
  get_symbol_info symbol ob = elim (find symbol ob.books) [ none ↦ none | some book ↦ book.info ]

  unfoldable pub get_imbalance : Text → OrderBook D → Option (Imbalance D)
  get_imbalance symbol ob = elim (find symbol ob.books) [
    | none ↦ none
    | some book ↦ book.last_imbalance
  ]

  unfoldable pub get_symbols : OrderBook D → List Text
  get_symbols ob = keys ob.books

  unfoldable pub get_active_book_count : OrderBook D → ℕ
  get_active_book_count ob = length ob.books

  -- The loop of `GetLiveOrderCount`.
  unfoldable pub add_order_counts : ℕ → Map Text (SymbolBook D) → ℕ
  add_order_counts total [] = total
  add_order_counts total ((symbol, book) ∷ books) =
      add_order_counts (add64 total (length book.orders)) books

  unfoldable pub get_live_order_count : OrderBook D → ℕ
  get_live_order_count ob = add_order_counts 0 ob.books

  abbrev pub get_book_build_failures : OrderBook D → ℕ
  get_book_build_failures ob = ob.book_build_failures

  abbrev pub get_trade_ledger_failures : OrderBook D → ℕ
  get_trade_ledger_failures ob = ob.trade_ledger_failures
