-- ===== src/OrderBook/Invariant.antt =====
-- Every message keeps the displayed book consistent, and a build failure is reported exactly for an
-- order that the book does not know.
use nyse_pillar_market_data.Prelude.{
  ℕ, ◌+◌, ◌<◌, ◌≡◌, ◌≢◌, ◌↔◌, Bool, true, false, none, some, nat_eq, arith, inl, inr, Option-cases,
  Option, if◌then◌else◌,
}
use nyse_pillar_market_data.Prelude.Word.{u64_mod}
use nyse_pillar_market_data.Double.{Double, IsOrdered}
use nyse_pillar_market_data.Map.{find, erase}
use nyse_pillar_market_data.Message.{
  Message, ModifyOrder, TradeCancel, symbol_index_mapping, security_status, add_order, modify_order,
  delete_order, order_execution, replace_order, retail_price_improvement, imbalance,
  add_order_refresh, non_displayed_trade, cross_trade, trade_cancel, cross_correction,
}
use nyse_pillar_market_data.OrderBook.Book.{LiveOrder, SymbolBook}
use nyse_pillar_market_data.OrderBook.Agreement.{resting_at}
use nyse_pillar_market_data.OrderBook.Handlers.{
  fine, build_failure, apply_symbol_index_mapping, apply_security_status, apply_add_order,
  apply_modify_order, apply_delete_order, apply_order_execution, apply_replace_order,
  apply_retail_price_improvement, apply_imbalance, apply_add_order_refresh,
  apply_non_displayed_trade, apply_cross_trade, apply_trade_cancel, apply_cross_correction,
  log_trade, drop_order, execute_order,
}
use nyse_pillar_market_data.OrderBook.Dispatch.{handle}
use nyse_pillar_market_data.OrderBook.Consistency.{
  IsConsistent, place_order-IsConsistent, drop_order-known, drop_order-unknown, drop_order-lem,
}
use nyse_pillar_market_data.OrderBook.Orders.{
  apply_modify_order-fine, apply_modify_order-IsConsistent, execute_order-known,
  apply_replace_order-IsConsistent,
}

module _ {D : Type 0} ⦃d : Double D⦄ where
  -- A positive volume that the level of its price can take.
  abbrev pub Fits : SymbolBook D → ℕ → D → ℕ → Type 0
  Fits book side price volume =
      (0 < volume) × (resting_at book.orders side price + volume < u64_mod)

  -- What the exchange promises of a message: a new order has a free id, no order is empty, and the
  -- volume at a price is a 64-bit word.
  abbrev pub IsAcceptable : SymbolBook D → Message D → Type 0
  IsAcceptable book (add_order m) =
      (find m.order_id book.orders ≡ none) × Fits book m.side m.price m.volume
  IsAcceptable book (add_order_refresh m) =
      (find m.order_id book.orders ≡ none) × Fits book m.side m.price m.volume
  IsAcceptable book (modify_order m) =
      (o : LiveOrder D) → find m.order_id book.orders ≡ some o → Fits book o.side m.price m.volume
  IsAcceptable book (replace_order m) =
      (find m.new_order_id (erase m.order_id book.orders) ≡ none)
      × Fits book m.side m.price m.volume
  IsAcceptable book _ = Unit

  -- The order that a message refers to is not live.
  abbrev pub is_unknown : Option (LiveOrder D) → Bool
  is_unknown none = true
  is_unknown (some o) = false

  abbrev pub names_unknown : SymbolBook D → Message D → Bool
  names_unknown book (modify_order m) = is_unknown (find m.order_id book.orders)
  names_unknown book (delete_order m) = is_unknown (find m.order_id book.orders)
  names_unknown book (order_execution m) = is_unknown (find m.order_id book.orders)
  names_unknown book (replace_order m) = is_unknown (find m.order_id book.orders)
  names_unknown book _ = false

  log_trade-IsConsistent :
      (id : ℕ) (price : D) (volume : ℕ) (book : SymbolBook D)
      → IsConsistent book
      → IsConsistent (log_trade id price volume book)
  unfolding log_trade
  log_trade-IsConsistent id price volume book v = record {
    distinct = v.distinct;
    volumes = v.volumes;
    levels = v.levels;
  }

  execute_order-unknown :
      (id volume : ℕ) (book : SymbolBook D)
      → find id book.orders ≡ none
      → execute_order id volume book ≡ (book, build_failure)
  unfolding execute_order
  execute_order-unknown id volume book h = rw (h, execute_order)

  modify_order-unknown :
      (m : ModifyOrder D) (book : SymbolBook D)
      → find m.order_id book.orders ≡ none
      → apply_modify_order m book ≡ (book, build_failure)
  unfolding apply_modify_order
  modify_order-unknown m book h = rw (h, apply_modify_order)

  -- The messages that touch neither orders nor levels.
  cancel-IsConsistent :
      (m : TradeCancel) (book : SymbolBook D)
      → IsConsistent book
      → IsConsistent (apply_trade_cancel m book).0
  unfolding apply_trade_cancel
  cancel-IsConsistent m book v = ground arith

module _ {D : Type 0} ⦃d : Double D⦄ (laws : IsOrdered D) where
  execute_order-IsConsistent :
      (id volume : ℕ) (book : SymbolBook D)
      → IsConsistent book
      → IsConsistent (execute_order id volume book).0
  execute_order-IsConsistent id volume book v = elim (Option-cases (find id book.orders)) [
    | inl e ↦ rw (execute_order-unknown id volume book e) v
    | inr (o, e) ↦ (execute_order-known laws id volume o book v e).1
  ]

  modify_order-IsConsistent :
      (m : ModifyOrder D) (book : SymbolBook D)
      → IsAcceptable book (modify_order m)
      → IsConsistent book
      → IsConsistent (apply_modify_order m book).0
  modify_order-IsConsistent m book a v = elim (Option-cases (find m.order_id book.orders)) [
    | inl e ↦ rw (modify_order-unknown m book e) v
    | inr (o, e) ↦
        let fits = a o e in apply_modify_order-IsConsistent laws m o book v e fits.0 fits.1
  ]

  -- Every acceptable message keeps the book of its symbol consistent: order ids distinct, no order
  -- empty, the levels in price order and none empty, and at each price of each side the volume of the
  -- live orders there. A message is acceptable if its new order has a free id and is not empty, and the
  -- volume at its price stays a 64-bit word; for a modify or a replace the old order's volume counts too,
  -- before it is taken off. Prices are ordered.
  pub handle-IsConsistent :
      (m : Message D) (book : SymbolBook D)
      → IsAcceptable book m
      → IsConsistent book
      → IsConsistent (handle m book).0
  unfolding handle apply_symbol_index_mapping apply_security_status apply_add_order
      apply_delete_order apply_order_execution apply_retail_price_improvement apply_imbalance
      apply_add_order_refresh apply_non_displayed_trade apply_cross_trade apply_cross_correction
  handle-IsConsistent (symbol_index_mapping m) book a v = record {
    distinct = v.distinct;
    volumes = v.volumes;
    levels = v.levels;
  }
  handle-IsConsistent (security_status m) book a v = ground arith
  handle-IsConsistent (add_order m) book a v =
      place_order-IsConsistent laws m.order_id _ book a.0 a.1.0 a.1.1 v
  handle-IsConsistent (modify_order m) book a v = modify_order-IsConsistent m book a v
  handle-IsConsistent (delete_order m) book a v = (drop_order-lem laws m.order_id book v).1
  handle-IsConsistent (order_execution m) book a v =
      execute_order-IsConsistent m.order_id m.volume _
        (log_trade-IsConsistent m.trade_id m.price m.volume book v)
  handle-IsConsistent (replace_order m) book a v =
      apply_replace_order-IsConsistent laws m book a.0 a.1.0 a.1.1 v
  handle-IsConsistent (retail_price_improvement m) book a v = record {
    distinct = v.distinct;
    volumes = v.volumes;
    levels = v.levels;
  }
  handle-IsConsistent (imbalance m) book a v = record {
    distinct = v.distinct;
    volumes = v.volumes;
    levels = v.levels;
  }
  handle-IsConsistent (add_order_refresh m) book a v =
      place_order-IsConsistent laws m.order_id _ book a.0 a.1.0 a.1.1 v
  handle-IsConsistent (non_displayed_trade m) book a v =
      log_trade-IsConsistent m.trade_id m.price m.volume book v
  handle-IsConsistent (cross_trade m) book a v = record {
    distinct = v.distinct;
    volumes = v.volumes;
    levels = v.levels;
  }
  handle-IsConsistent (trade_cancel m) book a v = cancel-IsConsistent m book v
  handle-IsConsistent (cross_correction m) book a v = ground arith

  modify_order-report :
      (m : ModifyOrder D) (book : SymbolBook D)
      → IsConsistent book
      → (apply_modify_order m book).1
        ≡ (if is_unknown (find m.order_id book.orders) then build_failure else fine)
  modify_order-report m book v = elim (Option-cases (find m.order_id book.orders)) [
    | inl e ↦ rw (modify_order-unknown m book e, e)
    | inr (o, e) ↦ rw (apply_modify_order-fine laws m o book v e, e)
  ]

  drop_order-report :
      (id : ℕ) (book : SymbolBook D)
      → IsConsistent book
      → (drop_order id book).1 ≡ (if is_unknown (find id book.orders) then build_failure else fine)
  drop_order-report id book v = elim (Option-cases (find id book.orders)) [
    | inl e ↦ rw (drop_order-unknown laws id book e, e)
    | inr (o, e) ↦ rw ((drop_order-known laws id o book v e).0, e)
  ]

  execute_order-report :
      (id volume : ℕ) (book : SymbolBook D)
      → IsConsistent book
      → (execute_order id volume book).1
        ≡ (if is_unknown (find id book.orders) then build_failure else fine)
  execute_order-report id volume book v = elim (Option-cases (find id book.orders)) [
    | inl e ↦ rw (execute_order-unknown id volume book e, e)
    | inr (o, e) ↦ rw ((execute_order-known laws id volume o book v e).0, e)
  ]

  ledger-not-build :
      (m : TradeCancel) (book : SymbolBook D) → (apply_trade_cancel m book).1 ≢ build_failure
  unfolding apply_trade_cancel
  ledger-not-build m book = ground arith

  -- On a consistent book a message is a build failure exactly where it modifies, deletes, executes
  -- or replaces an order that is not live. In particular no level ever holds less volume than a live
  -- order needs. Prices are ordered.
  pub handle-build_failure :
      (m : Message D) (book : SymbolBook D)
      → IsConsistent book
      → ((handle m book).1 ≡ build_failure) ↔ (names_unknown book m ≡ true)
  unfolding handle apply_symbol_index_mapping apply_security_status apply_add_order
      apply_delete_order apply_order_execution apply_retail_price_improvement apply_imbalance
      apply_add_order_refresh apply_non_displayed_trade apply_cross_trade apply_cross_correction
      apply_replace_order log_trade
  handle-build_failure (symbol_index_mapping m) book v = ground arith
  handle-build_failure (security_status m) book v = ground arith
  handle-build_failure (add_order m) book v = ground arith
  handle-build_failure (modify_order m) book v = ground (arith, modify_order-report m book v)
  handle-build_failure (delete_order m) book v = ground (arith, drop_order-report m.order_id book v)
  handle-build_failure (order_execution m) book v =
      let logged = log_trade m.trade_id m.price m.volume book in
      ground (
        arith,
        execute_order-report m.order_id m.volume logged
            (log_trade-IsConsistent m.trade_id m.price m.volume book v),
      )
  handle-build_failure (replace_order m) book v =
      ground (arith, drop_order-report m.order_id book v)
  handle-build_failure (retail_price_improvement m) book v = ground arith
  handle-build_failure (imbalance m) book v = ground arith
  handle-build_failure (add_order_refresh m) book v = ground arith
  handle-build_failure (non_displayed_trade m) book v = ground arith
  handle-build_failure (cross_trade m) book v = ground arith
  handle-build_failure (trade_cancel m) book v = ground (arith, ledger-not-build m book)
  handle-build_failure (cross_correction m) book v = ground arith
