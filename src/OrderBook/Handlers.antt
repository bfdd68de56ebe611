-- ===== src/OrderBook/Handlers.antt =====
-- The `Apply…` methods of src/model/order_book.cpp, each on the book of the symbol that its message
-- names. The report says which failure counter the method raises; no method raises two, or one twice.
-- A log index that is out of range, undefined in the source, reads as not cancelled, with volume 0.
use nyse_pillar_market_data.Prelude.{
  ℕ, ◌-◌, Bool, true, false, none, some, nat_eq, ◌==◌, ltb, leb, modify, if◌then◌else◌,
}
use nyse_pillar_market_data.Double.{Double}
use nyse_pillar_market_data.Map.{find, assign, erase}
use nyse_pillar_market_data.Message.{
  SymbolIndexMapping, SecurityStatus, AddOrder, ModifyOrder, DeleteOrder, OrderExecution,
  ReplaceOrder, RetailPriceImprovement, Imbalance, AddOrderRefresh, NonDisplayedTrade, CrossTrade,
  TradeCancel, CrossCorrection,
}
use nyse_pillar_market_data.Stats.{restated_total, is_cancelled, volume_at}
use nyse_pillar_market_data.Stats.Edit.{with_volume, cancel}
use nyse_pillar_market_data.OrderBook.Book.{
  LiveOrder, SymbolBook, add_level, remove_level, append_trade, recompute_stats,
}

pub data Report : Type 0 where
  fine build_failure ledger_failure : Report

-- `_bookBuildFailures++` where a level could not be taken.
abbrev pub unless_removed : Bool → Report
unless_removed true = fine
unless_removed false = build_failure

module _ {D : Type 0} where
  unfoldable pub apply_symbol_index_mapping :
      SymbolIndexMapping D → SymbolBook D → SymbolBook D × Report
  apply_symbol_index_mapping msg book = (record book { info = some msg }, fine)

  unfoldable pub apply_security_status : SecurityStatus D → SymbolBook D → SymbolBook D × Report
  apply_security_status msg book = (
    if msg.security_status == b'4'
        then record book { halted = true }
        else (if msg.security_status == b'5' then record book { halted = false } else book),
    fine,
  )

  unfoldable pub apply_retail_price_improvement :
      RetailPriceImprovement → SymbolBook D → SymbolBook D × Report
  apply_retail_price_improvement msg book =
      (record book { last_rpi_indicator = msg.rpi_indicator }, fine)

  unfoldable pub apply_imbalance : Imbalance D → SymbolBook D → SymbolBook D × Report
  apply_imbalance msg book = (record book { last_imbalance = some msg }, fine)

  unfoldable pub apply_cross_correction : CrossCorrection → SymbolBook D → SymbolBook D × Report
  apply_cross_correction msg book = elim (find msg.cross_id book.crosses_by_id) [
    | none ↦ (book, ledger_failure)
    | some i ↦ (
      record book {
        stats = record (book.stats) {
          total_volume =
              restated_total book.stats.total_volume msg.volume (volume_at book.trade_log i);
        };
        trade_log = modify book.trade_log i (with_volume msg.volume);
      },
      fine,
    )
  ]

  module _ ⦃d : Double D⦄ where
    -- `_orders[id] = order` and the `AddLevel` that follows it in three methods.
    unfoldable pub place_order : ℕ → LiveOrder D → SymbolBook D → SymbolBook D
    place_order id order book =
        add_level (record book { orders = assign id order book.orders }) order.side order.price
          order.volume

    unfoldable pub apply_add_order : AddOrder D → SymbolBook D → SymbolBook D × Report
    unfolding place_order
    apply_add_order msg book = (
      place_order msg.order_id (record { price = msg.price; volume = msg.volume; side = msg.side })
          book,
      fine,
    )

    unfoldable pub apply_add_order_refresh :
        AddOrderRefresh D → SymbolBook D → SymbolBook D × Report
    unfolding place_order
    apply_add_order_refresh msg book = (
      place_order msg.order_id (record { price = msg.price; volume = msg.volume; side = msg.side })
          book,
      fine,
    )

    unfoldable pub apply_modify_order : ModifyOrder D → SymbolBook D → SymbolBook D × Report
    apply_modify_order msg book = elim (find msg.order_id book.orders) [
      | none ↦ (book, build_failure)
      | some order ↦
          let (removed, done) = remove_level book order.side order.price order.volume in
          let changed : LiveOrder D = record order { price = msg.price; volume = msg.volume } in
          (
            add_level (record removed { orders = assign msg.order_id changed removed.orders })
                order.side msg.price msg.volume,
            unless_removed done,
          )
    ]

    -- A known order leaves its level and the orders: `ApplyDeleteOrder`, and the first half of
    -- `ApplyReplaceOrder`.
    unfoldable pub drop_order : ℕ → SymbolBook D → SymbolBook D × Report
    drop_order id book = elim (find id book.orders) [
      | none ↦ (book, build_failure)
      | some order ↦
          let (removed, done) = remove_level book order.side order.price order.volume in
          (record removed { orders = erase id removed.orders }, unless_removed done)
    ]

    unfoldable pub apply_delete_order : DeleteOrder → SymbolBook D → SymbolBook D × Report
    unfolding drop_order
    apply_delete_order msg book = drop_order msg.order_id book

    unfoldable pub apply_replace_order : ReplaceOrder D → SymbolBook D → SymbolBook D × Report
    unfolding drop_order place_order
    apply_replace_order msg book =
        let (dropped, report) = drop_order msg.order_id book in
        (
          place_order msg.new_order_id
              (record { price = msg.price; volume = msg.volume; side = msg.side }) dropped,
          report,
        )

    -- `_tradesById[id] = AppendTrade(…)`.
    unfoldable pub log_trade : ℕ → D → ℕ → SymbolBook D → SymbolBook D
    unfolding append_trade
    log_trade id price volume book =
        let (logged, i) = append_trade book price volume in
        record logged { trades_by_id = assign id i logged.trades_by_id }

    -- The second half of `ApplyOrderExecution`, on the resting order.
    unfoldable pub execute_order : ℕ → ℕ → SymbolBook D → SymbolBook D × Report
    execute_order id volume book = elim (find id book.orders) [
      | none ↦ (book, build_failure)
      | some order ↦
          let executed = if ltb order.volume volume then order.volume else volume in
          let (removed, done) = remove_level book order.side order.price executed in
          (
            record removed {
              orders =
                  if leb order.volume volume
                  then erase id removed.orders
                  else assign id (record order { volume = order.volume - volume }) removed.orders;
            },
            unless_removed done,
          )
    ]

    unfoldable pub apply_order_execution : OrderExecution D → SymbolBook D → SymbolBook D × Report
    unfolding log_trade execute_order
    apply_order_execution msg book =
        execute_order msg.order_id msg.volume (log_trade msg.trade_id msg.price msg.volume book)

    unfoldable pub apply_non_displayed_trade :
        NonDisplayedTrade D → SymbolBook D → SymbolBook D × Report
    unfolding log_trade
    apply_non_displayed_trade msg book = (log_trade msg.trade_id msg.price msg.volume book, fine)

    unfoldable pub apply_cross_trade : CrossTrade D → SymbolBook D → SymbolBook D × Report
    unfolding append_trade
    apply_cross_trade msg book =
        let (logged, i) = append_trade book msg.price msg.volume in
        (record logged { crosses_by_id = assign msg.cross_id i logged.crosses_by_id }, fine)

    unfoldable pub apply_trade_cancel : TradeCancel → SymbolBook D → SymbolBook D × Report
    unfolding recompute_stats
    apply_trade_cancel msg book = elim (find msg.trade_id book.trades_by_id) [
      | none ↦ (book, ledger_failure)
      | some i ↦
          if is_cancelled book.trade_log i
          then (book, ledger_failure)
          else (recompute_stats (record book { trade_log = modify book.trade_log i cancel }), fine)
    ]
