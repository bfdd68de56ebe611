-- ===== src/OrderBook/Trades.antt =====
-- The trade ledger of a symbol's book: an invariant of its log, indices and statistics, which every
-- message keeps.
use nyse_pillar_market_data.Prelude.{
  ℕ, ◌+◌, ◌-◌, ◌<◌, ◌≡◌, refl, ap, ◌∙◌, false, List, [], ◌∷◌, ◌++◌, All, arith, length,
  length-append, All-append, nat_eq, ◌==◌,
}
use nyse_pillar_market_data.Prelude.Word.{u64_mod}
use nyse_pillar_market_data.Double.{Double}
use nyse_pillar_market_data.Map.{Map, assign, AllValues}
use nyse_pillar_market_data.Map.Laws.{assign-AllValues, AllValues-mono}
use nyse_pillar_market_data.Message.{CrossTrade}
use nyse_pillar_market_data.Stats.{
  TradeRecord, no_stats, recompute_loop, is_cancelled, fold_into_stats,
}
use nyse_pillar_market_data.Stats.Edit.{recompute_loop-snoc}
use nyse_pillar_market_data.Stats.Cancelled.{is_cancelled-append, is_cancelled-append_last}
use nyse_pillar_market_data.OrderBook.Book.{SymbolBook, empty_book}
use nyse_pillar_market_data.OrderBook.Handlers.{log_trade, apply_cross_trade}
use nyse_pillar_market_data.OrderBook.Parts.{TradePart, trade_part}

-- An index that crosses use: in the log, live, and used by no trade that can be cancelled.
abbrev pub IsCross : {D : Type 0} → List (TradeRecord D) → Map ℕ ℕ → ℕ → Type 0
IsCross log trades j =
    (j < length log) × (is_cancelled log j ≡ false) × AllValues (λ i. (i == j) ≡ false) trades

-- The statistics are those of the log, the indices lie in the log, crosses are never cancelled, and
-- volumes are 64-bit words.
pub record IsLogged {D : Type 0} ⦃d : Double D⦄ (t : TradePart D) : Type 0 where
  pub synced : t.stats ≡ recompute_loop no_stats t.log
  pub trades : AllValues (λ i. i < length t.log) t.trades_by_id
  pub crosses : AllValues (IsCross t.log t.trades_by_id) t.crosses_by_id
  pub small : All (λ r. r.volume < u64_mod) t.log

module _ {D : Type 0} ⦃d : Double D⦄ where
  pub empty_book-IsLogged : IsLogged {D = D} (trade_part empty_book)
  unfolding recompute_loop
  empty_book-IsLogged = record { synced = refl; trades = tt; crosses = tt; small = tt }

  -- A new record at the end of the log.
  module _ (t : TradePart D) (r : TradeRecord D) (v : IsLogged t) where
    longer : length (t.log ++ r ∷ []) ≡ length t.log + 1
    longer = length-append t.log (r ∷ [])

    trades-append : AllValues (λ i. i < length (t.log ++ r ∷ [])) t.trades_by_id
    trades-append =
        AllValues-mono (λ i. i < length t.log) _ t.trades_by_id (λ i h. omega (arith, longer))
          v.trades

    crosses-append : AllValues (IsCross (t.log ++ r ∷ []) t.trades_by_id) t.crosses_by_id
    crosses-append =
        AllValues-mono (IsCross t.log t.trades_by_id) _ t.crosses_by_id
          (λ j h. (omega (arith, longer), is_cancelled-append t.log r j h.0 ∙ h.1, h.2)) v.crosses

    appended-trade :
        (id : ℕ)
        → AllValues
            (IsCross (t.log ++ r ∷ []) (assign id (length (t.log ++ r ∷ []) - 1) t.trades_by_id))
            t.crosses_by_id
    appended-trade id =
        AllValues-mono (IsCross t.log t.trades_by_id) _ t.crosses_by_id
          (λ j h. (
            omega (arith, longer),
            is_cancelled-append t.log r j h.0 ∙ h.1,
            assign-AllValues (λ i. (i == j) ≡ false) id _ t.trades_by_id (ground (arith, longer))
                h.2,
          ))
          v.crosses

    appended-IsCross :
        (id : ℕ)
        → r.cancelled ≡ false
        → AllValues
            (IsCross (t.log ++ r ∷ []) t.trades_by_id)
            (assign id (length (t.log ++ r ∷ []) - 1) t.crosses_by_id)
    appended-IsCross id c =
        let last : length (t.log ++ r ∷ []) - 1 ≡ length t.log = omega (arith, longer) in
        assign-AllValues (IsCross (t.log ++ r ∷ []) t.trades_by_id) id _ t.crosses_by_id
          (rw last (
            omega (arith, longer),
            is_cancelled-append_last t.log r ∙ c,
            AllValues-mono (λ i. i < length t.log) _ t.trades_by_id (λ i h. ground arith) v.trades,
          ))
          crosses-append

  pub log_trade-IsLogged :
      (id : ℕ) (price : D) (volume : ℕ) (book : SymbolBook D)
      → volume < u64_mod
      → IsLogged (trade_part book)
      → IsLogged (trade_part (log_trade id price volume book))
  unfolding log_trade fold_into_stats
  log_trade-IsLogged id price volume book h v =
      let r : TradeRecord D = record { price = price; volume = volume; cancelled = false } in
      record {
        synced =
            rw (recompute_loop-snoc no_stats book.trade_log r refl)
              (ap (λ s. fold_into_stats s price volume) v.synced);
        trades =
            assign-AllValues _ id _ book.trades_by_id (omega (arith, longer (trade_part book) r v))
              (trades-append (trade_part book) r v);
        crosses = appended-trade (trade_part book) r v id;
        small = All-append _ book.trade_log (r ∷ []) v.small (h, tt);
      }

  pub cross_trade-IsLogged :
      (m : CrossTrade D) (book : SymbolBook D)
      → m.volume < u64_mod
      → IsLogged (trade_part book)
      → IsLogged (trade_part (apply_cross_trade m book).0)
  unfolding apply_cross_trade fold_into_stats
  cross_trade-IsLogged m book h v =
      let r : TradeRecord D = record { price = m.price; volume = m.volume; cancelled = false } in
      record {
        synced =
            rw (recompute_loop-snoc no_stats book.trade_log r refl)
              (ap (λ s. fold_into_stats s m.price m.volume) v.synced);
        trades = trades-append (trade_part book) r v;
        crosses = appended-IsCross (trade_part book) r v m.cross_id refl;
        small = All-append _ book.trade_log (r ∷ []) v.small (h, tt);
      }
