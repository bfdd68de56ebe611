-- ===== src/OrderBook/Parts.antt =====
-- The displayed book and the trade ledger of a symbol are apart: which messages touch which.
use nyse_pillar_market_data.Prelude.{
  ℕ, ◌≡◌, ◌∙◌, refl, Bool, true, false, List, arith, nat_eq, ltb, if◌then◌else◌, Option-cases, inl,
  inr,
}
use nyse_pillar_market_data.Double.{Double}
use nyse_pillar_market_data.Levels.{Levels}
use nyse_pillar_market_data.Map.{Map, find}
use nyse_pillar_market_data.Message.{
  Message, ModifyOrder, ReplaceOrder, symbol_index_mapping, security_status, add_order,
  modify_order, delete_order, order_execution, replace_order, retail_price_improvement, imbalance,
  add_order_refresh, non_displayed_trade, cross_trade, trade_cancel, cross_correction,
}
use nyse_pillar_market_data.Stats.{DailyStats, TradeRecord}
use nyse_pillar_market_data.OrderBook.Book.{LiveOrder, SymbolBook, add_level, remove_level}
use nyse_pillar_market_data.OrderBook.Handlers.{
  apply_symbol_index_mapping, apply_security_status, apply_add_order, apply_modify_order,
  apply_delete_order, apply_replace_order, apply_retail_price_improvement, apply_imbalance,
  apply_add_order_refresh, apply_non_displayed_trade, apply_cross_trade, apply_trade_cancel,
  apply_cross_correction, place_order, drop_order, execute_order,
}
use nyse_pillar_market_data.OrderBook.Dispatch.{handle}

pub record TradePart (D : Type 0) : Type 0 where
  pub stats : DailyStats D
  pub log : List (TradeRecord D)
  pub trades_by_id : Map ℕ ℕ
  pub crosses_by_id : Map ℕ ℕ

pub record DisplayPart (D : Type 0) : Type 0 where
  pub orders : Map ℕ (LiveOrder D)
  pub bid_levels : Levels D
  pub ask_levels : Levels D

module _ {D : Type 0} where
  abbrev pub trade_part : SymbolBook D → TradePart D
  trade_part book = record {
    stats = book.stats;
    log = book.trade_log;
    trades_by_id = book.trades_by_id;
    crosses_by_id = book.crosses_by_id;
  }

  abbrev pub display_part : SymbolBook D → DisplayPart D
  display_part book = record {
    orders = book.orders;
    bid_levels = book.bid_levels;
    ask_levels = book.ask_levels;
  }

  -- The messages that report a trade, or correct one.
  abbrev pub is_trade_message : Message D → Bool
  is_trade_message (order_execution m) = true
  is_trade_message (non_displayed_trade m) = true
  is_trade_message (cross_trade m) = true
  is_trade_message (trade_cancel m) = true
  is_trade_message (cross_correction m) = true
  is_trade_message _ = false

  -- The messages that change the resting orders.
  abbrev pub is_order_message : Message D → Bool
  is_order_message (add_order m) = true
  is_order_message (modify_order m) = true
  is_order_message (delete_order m) = true
  is_order_message (order_execution m) = true
  is_order_message (replace_order m) = true
  is_order_message (add_order_refresh m) = true
  is_order_message _ = false

module _ {D : Type 0} ⦃d : Double D⦄ where
  add_level-trade_part :
      (book : SymbolBook D) (side : ℕ) (price : D) (volume : ℕ)
      → trade_part (add_level book side price volume) ≡ trade_part book
  unfolding add_level
  add_level-trade_part book side price volume = ground arith

  remove_level-trade_part :
      (book : SymbolBook D) (side : ℕ) (price : D) (volume : ℕ)
      → trade_part (remove_level book side price volume).0 ≡ trade_part book
  unfolding remove_level
  remove_level-trade_part book side price volume = ground arith

  place_order-trade_part :
      (id : ℕ) (o : LiveOrder D) (book : SymbolBook D)
      → trade_part (place_order id o book) ≡ trade_part book
  unfolding place_order
  place_order-trade_part id o book = add_level-trade_part _ o.side o.price o.volume

  drop_order-trade_part :
      (id : ℕ) (book : SymbolBook D) → trade_part (drop_order id book).0 ≡ trade_part book
  unfolding drop_order
  drop_order-trade_part id book = elim (Option-cases (find id book.orders)) [
    | inl e ↦ rw (e, drop_order) refl
    | inr (o, e) ↦ rw (e, drop_order) (remove_level-trade_part book o.side o.price o.volume)
  ]

  modify_order-trade_part :
      (m : ModifyOrder D) (book : SymbolBook D)
      → trade_part (apply_modify_order m book).0 ≡ trade_part book
  unfolding apply_modify_order
  modify_order-trade_part m book = elim (Option-cases (find m.order_id book.orders)) [
    | inl e ↦ rw (e, apply_modify_order) refl
    | inr (o, e) ↦
        rw (e, apply_modify_order)
          (add_level-trade_part _ o.side m.price m.volume
            ∙ remove_level-trade_part book o.side o.price o.volume)
  ]

  pub execute_order-trade_part :
      (id volume : ℕ) (book : SymbolBook D)
      → trade_part (execute_order id volume book).0 ≡ trade_part book
  unfolding execute_order
  execute_order-trade_part id volume book = elim (Option-cases (find id book.orders)) [
    | inl e ↦ rw (e, execute_order) refl
    | inr (o, e) ↦
        rw (e, execute_order)
          (remove_level-trade_part book o.side o.price
            (if ltb o.volume volume then o.volume else volume))
  ]

  replace_order-trade_part :
      (m : ReplaceOrder D) (book : SymbolBook D)
      → trade_part (apply_replace_order m book).0 ≡ trade_part book
  unfolding apply_replace_order
  replace_order-trade_part m book =
      place_order-trade_part m.new_order_id _ (drop_order m.order_id book).0
      ∙ drop_order-trade_part m.order_id book

  -- No message but those that report, cancel or correct a trade changes the trade log, its indices
  -- or the statistics of a symbol.
  pub handle-trade_part :
      (m : Message D) (book : SymbolBook D)
      → is_trade_message m ≡ false
      → trade_part (handle m book).0 ≡ trade_part book
  unfolding handle apply_symbol_index_mapping apply_security_status apply_add_order
      apply_delete_order apply_retail_price_improvement apply_imbalance apply_add_order_refresh
  handle-trade_part (symbol_index_mapping m) book h = refl
  handle-trade_part (security_status m) book h = ground arith
  handle-trade_part (add_order m) book h = place_order-trade_part m.order_id _ book
  handle-trade_part (modify_order m) book h = modify_order-trade_part m book
  handle-trade_part (delete_order m) book h = drop_order-trade_part m.order_id book
  handle-trade_part (replace_order m) book h = replace_order-trade_part m book
  handle-trade_part (retail_price_improvement m) book h = refl
  handle-trade_part (imbalance m) book h = refl
  handle-trade_part (add_order_refresh m) book h = place_order-trade_part m.order_id _ book
  handle-trade_part _ book h = cc

  -- No message but those that add, modify, delete, execute, replace or refresh an order changes the
  -- orders or the levels of a symbol: non-displayed trades, crosses, cancels and corrections do not.
  pub handle-display_part :
      (m : Message D) (book : SymbolBook D)
      → is_order_message m ≡ false
      → display_part (handle m book).0 ≡ display_part book
  unfolding handle apply_symbol_index_mapping apply_security_status apply_retail_price_improvement
      apply_imbalance apply_non_displayed_trade apply_cross_trade apply_trade_cancel
      apply_cross_correction
  handle-display_part (symbol_index_mapping m) book h = refl
  handle-display_part (security_status m) book h = ground arith
  handle-display_part (retail_price_improvement m) book h = refl
  handle-display_part (imbalance m) book h = refl
  handle-display_part (non_displayed_trade m) book h = refl
  handle-display_part (cross_trade m) book h = refl
  handle-display_part (trade_cancel m) book h = ground arith
  handle-display_part (cross_correction m) book h = ground arith
  handle-display_part _ book h = cc
