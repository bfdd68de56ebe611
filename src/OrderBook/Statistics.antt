-- ===== src/OrderBook/Statistics.antt =====
-- The statistics of a symbol through every message of a feed: cancels and cross corrections included,
-- they are those of the live trades.
use nyse_pillar_market_data.Prelude.{
  ℕ, ◌<◌, ◌≡◌, refl, ◌∙◌, false, List, [], ◌∷◌, some, All, Text, text_eq, arith, inl, inr,
  Bool-cases, Option-cases, length-modify, All-modify, All-get_elem?, get_elem?-in_range, modify,
  nat_eq, ◌==◌,
}
use nyse_pillar_market_data.Prelude.Word.{u64_mod}
use nyse_pillar_market_data.Prelude.Int.{as_u64-add-sub}
use nyse_pillar_market_data.Double.{Double, IsOrdered}
use nyse_pillar_market_data.Map.{find, AllValues}
use nyse_pillar_market_data.Map.Laws.{find-AllValues, AllValues-mono, AllValues-zip}
use nyse_pillar_market_data.Message.{
  Message, TradeCancel, CrossCorrection, symbol_index_mapping, order_execution, non_displayed_trade,
  cross_trade, trade_cancel, cross_correction, message_symbol,
}
use nyse_pillar_market_data.Stats.{is_cancelled, volume_at}
use nyse_pillar_market_data.Stats.Edit.{with_volume, cancel, recompute_loop-modify, total_volume-lt}
use nyse_pillar_market_data.Stats.Cancelled.{
  is_cancelled-modify_ne, is_cancelled-with_volume, is_cancelled-modify-cancel,
}
use nyse_pillar_market_data.Stats.Summary.{IsSummary, recompute_loop-IsSummary}
use nyse_pillar_market_data.OrderBook.Book.{
  SymbolBook, OrderBook, recompute_stats, new_order_book, get_or_create_book,
}
use nyse_pillar_market_data.OrderBook.Handlers.{
  fine, ledger_failure, log_trade, apply_order_execution, apply_non_displayed_trade,
  apply_trade_cancel, apply_cross_correction,
}
use nyse_pillar_market_data.OrderBook.Dispatch.{handle, on_message, replay, get_daily_stats}
use nyse_pillar_market_data.OrderBook.Parts.{
  trade_part, handle-trade_part, execute_order-trade_part,
}
use nyse_pillar_market_data.OrderBook.Trades.{
  IsCross, IsLogged, empty_book-IsLogged, log_trade-IsLogged, cross_trade-IsLogged,
}
use nyse_pillar_market_data.OrderBook.Feed.{book_of, get_or_create_book-on_message}

module _ {D : Type 0} ⦃d : Double D⦄ where
  -- Cancelling the trade of an index that no cross uses.
  cancelled-IsLogged :
      (i : ℕ) (book : SymbolBook D)
      → AllValues (λ j. (i == j) ≡ false) book.crosses_by_id
      → IsLogged (trade_part book)
      → IsLogged (
          trade_part (recompute_stats (record book { trade_log = modify book.trade_log i cancel })))
  unfolding recompute_stats
  cancelled-IsLogged i book apart v = record {
    synced = refl;
    trades = rw (length-modify book.trade_log i cancel) v.trades;
    crosses =
        AllValues-zip (λ j. (i == j) ≡ false) (IsCross book.trade_log book.trades_by_id) _
          book.crosses_by_id
          (λ j ne h. (
            rw (length-modify book.trade_log i cancel) h.0,
            is_cancelled-modify_ne book.trade_log i j cancel ne ∙ h.1,
            h.2,
          ))
          apart v.crosses;
    small = All-modify _ book.trade_log i cancel (λ r h. h) v.small;
  }

  trade_cancel-IsLogged :
      (m : TradeCancel) (book : SymbolBook D)
      → IsLogged (trade_part book)
      → IsLogged (trade_part (apply_trade_cancel m book).0)
  unfolding apply_trade_cancel
  trade_cancel-IsLogged m book v = elim (Option-cases (find m.trade_id book.trades_by_id)) [
    | inl e ↦ rw (e, apply_trade_cancel) v
    | inr (i, e) ↦
        let apart : AllValues (λ j. (i == j) ≡ false) book.crosses_by_id =
          AllValues-mono (IsCross book.trade_log book.trades_by_id) _ book.crosses_by_id
            (λ j h. find-AllValues _ m.trade_id book.trades_by_id h.2 e) v.crosses in
        rw (e, apply_trade_cancel)
          (elim (Bool-cases (is_cancelled book.trade_log i)) [
            | inl c ↦ rw c v
            | inr c ↦ rw c (cancelled-IsLogged i book apart v)
          ])
  ]

  cross_correction-IsLogged :
      (m : CrossCorrection) (book : SymbolBook D)
      → m.volume < u64_mod
      → IsLogged (trade_part book)
      → IsLogged (trade_part (apply_cross_correction m book).0)
  unfolding apply_cross_correction
  cross_correction-IsLogged m book h v = elim (Option-cases (find m.cross_id book.crosses_by_id)) [
    | inl e ↦ rw (e, apply_cross_correction) v
    | inr (i, e) ↦
        let n = m.volume in
        let log = book.trade_log in
        let cross = find-AllValues _ m.cross_id book.crosses_by_id v.crosses e in
        let (r, at) = get_elem?-in_range log i cross.0 in
        let old : volume_at log i ≡ r.volume = ground (arith, at) in
        let live : r.cancelled ≡ false = ground (arith, at, cross.1) in
        let hr : r.volume < u64_mod = All-get_elem? _ log i {a = r} v.small at in
        rw (e, apply_cross_correction)
          (record {
            synced = rw (
              old,
              recompute_loop-modify log i n {t = r} at live hr,
              v.synced,
              as_u64-add-sub _ n r.volume (total_volume-lt log) h hr,
            );
            trades = rw (length-modify log i (with_volume n)) v.trades;
            crosses =
                AllValues-mono (IsCross log book.trades_by_id) _ book.crosses_by_id
                  (λ j k. (
                    rw (length-modify log i (with_volume n)) k.0,
                    is_cancelled-with_volume log i j n ∙ k.1,
                    k.2,
                  ))
                  v.crosses;
            small = All-modify _ log i (with_volume n) (λ r k. h) v.small;
          })
  ]

  -- The volume of a trade message is a 64-bit word.
  abbrev pub IsSmall : Message D → Type 0
  IsSmall (order_execution m) = m.volume < u64_mod
  IsSmall (non_displayed_trade m) = m.volume < u64_mod
  IsSmall (cross_trade m) = m.volume < u64_mod
  IsSmall (cross_correction m) = m.volume < u64_mod
  IsSmall _ = Unit

  -- Every message keeps the trade ledger of its symbol in order: the statistics are those of the log,
  -- the ids point into it, and no cross is ever cancelled. Volumes are 64-bit words.
  pub handle-IsLogged :
      (m : Message D) (book : SymbolBook D)
      → IsSmall m
      → IsLogged (trade_part book)
      → IsLogged (trade_part (handle m book).0)
  unfolding handle apply_order_execution apply_non_displayed_trade
  handle-IsLogged (order_execution m) book h v =
      let logged = log_trade m.trade_id m.price m.volume book in
      rw (execute_order-trade_part m.order_id m.volume logged)
        (log_trade-IsLogged m.trade_id m.price m.volume book h v)
  handle-IsLogged (non_displayed_trade m) book h v =
      log_trade-IsLogged m.trade_id m.price m.volume book h v
  handle-IsLogged (cross_trade m) book h v = cross_trade-IsLogged m book h v
  handle-IsLogged (trade_cancel m) book h v = trade_cancel-IsLogged m book v
  handle-IsLogged (cross_correction m) book h v = cross_correction-IsLogged m book h v
  handle-IsLogged (symbol_index_mapping m) book h v =
      rw (handle-trade_part (symbol_index_mapping m) book refl) v
  handle-IsLogged m book h v = rw (handle-trade_part m book refl) v

  abbrev pub AreSmall : List (Message D) → Type 0
  AreSmall = All IsSmall

  -- The trade ledger of every symbol is in order.
  pub record IsInStep (ob : OrderBook D) : Type 0 where
    pub every : (symbol : Text) → IsLogged (trade_part (get_or_create_book symbol ob))

  pub new_order_book-IsInStep : IsInStep new_order_book
  unfolding find
  new_order_book-IsInStep = record { every = λ symbol. empty_book-IsLogged }

  on_message-IsInStep :
      (m : Message D) (ob : OrderBook D) → IsSmall m → IsInStep ob → IsInStep (on_message m ob)
  on_message-IsInStep m ob h v = record {
    every = λ s.
        rw (get_or_create_book-on_message s m ob)
          (elim (Bool-cases (text_eq.beq (message_symbol m) s)) [
            | inl e ↦ rw e (handle-IsLogged m (book_of ob m) h (v.every (message_symbol m)))
            | inr e ↦ rw e (v.every s)
          ]);
  }

  pub replay-IsInStep :
      (ms : List (Message D)) (ob : OrderBook D)
      → AreSmall ms
      → IsInStep ob
      → IsInStep (replay ms ob)
  unfolding replay
  replay-IsInStep [] ob h v = v
  replay-IsInStep (m ∷ ms) ob h v =
      replay-IsInStep ms (on_message m ob) h.1 (on_message-IsInStep m ob h.0 v)

  get_daily_stats-eq :
      (s : Text) (ob : OrderBook D) → get_daily_stats s ob ≡ (get_or_create_book s ob).stats
  unfolding get_daily_stats
  get_daily_stats-eq s ob = ground arith

  -- After any feed whose trade volumes are 64-bit words, whatever its orders, cancels and
  -- corrections, `GetDailyStats` of every symbol gives the first, highest, lowest and last price and
  -- the total volume (modulo 2^64) of the trades in its log that are not cancelled. Prices are
  -- ordered.
  pub get_daily_stats-replay-IsSummary :
      IsOrdered D
      → (ms : List (Message D)) (symbol : Text) → AreSmall ms
      → let ob = replay ms new_order_book in
        IsSummary (get_or_create_book symbol ob).trade_log (get_daily_stats symbol ob)
  get_daily_stats-replay-IsSummary laws ms symbol h =
      let ob = replay ms new_order_book in
      let v = (replay-IsInStep ms new_order_book h new_order_book-IsInStep).every symbol in
      rw (get_daily_stats-eq symbol ob, v.synced)
        (recompute_loop-IsSummary laws (get_or_create_book symbol ob).trade_log)

  -- In a ledger that is in order, cancelling a trade a second time is a failure that changes
  -- nothing.
  pub apply_trade_cancel-twice :
      (m : TradeCancel) (book : SymbolBook D)
      → IsLogged (trade_part book)
      → let once = (apply_trade_cancel m book).0 in
        apply_trade_cancel m once ≡ (once, ledger_failure)
  unfolding apply_trade_cancel recompute_stats
  apply_trade_cancel-twice m book v = elim (Option-cases (find m.trade_id book.trades_by_id)) [
    | inl e ↦ ground (arith, e)
    | inr (i, e) ↦ ground (
      arith,
      e,
      is_cancelled-modify-cancel book.trade_log i
          (find-AllValues _ m.trade_id book.trades_by_id v.trades e),
    )
  ]

  -- On a cross the volume delta gives what a full recomputation of the statistics gives. The ledger
  -- is in order and the volume a 64-bit word.
  pub apply_cross_correction-eq-recompute :
      (m : CrossCorrection) (i : ℕ) (book : SymbolBook D)
      → find m.cross_id book.crosses_by_id ≡ some i
      → m.volume < u64_mod
      → IsLogged (trade_part book)
      → apply_cross_correction m book ≡ (
        recompute_stats
            (record book { trade_log = modify book.trade_log i (with_volume m.volume) }),
        fine,
      )
  unfolding apply_cross_correction recompute_stats
  apply_cross_correction-eq-recompute m i book e h v =
      let after = (cross_correction-IsLogged m book h v).synced in ground (arith, after)
