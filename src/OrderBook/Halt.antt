-- ===== src/OrderBook/Halt.antt =====
-- The halt state of a symbol.
use nyse_pillar_market_data.Prelude.{
  ℕ, ◌≡◌, ◌∙◌, ap, refl, Bool, true, false, List, [], ◌∷◌, Text, text_eq, arith, ◌==◌,
  if◌then◌else◌,
}
use nyse_pillar_market_data.Double.{Double}
use nyse_pillar_market_data.Map.{find}
use nyse_pillar_market_data.Message.{
  Message, message_symbol, symbol_index_mapping, security_status, add_order, modify_order,
  delete_order, order_execution, replace_order, retail_price_improvement, imbalance,
  add_order_refresh, non_displayed_trade, cross_trade, trade_cancel, cross_correction,
}
use nyse_pillar_market_data.OrderBook.Book.{
  SymbolBook, OrderBook, new_order_book, get_or_create_book, add_level, remove_level,
  recompute_stats,
}
use nyse_pillar_market_data.OrderBook.Handlers.{
  apply_symbol_index_mapping, apply_security_status, apply_add_order, apply_modify_order,
  apply_delete_order, apply_order_execution, apply_replace_order, apply_retail_price_improvement,
  apply_imbalance, apply_add_order_refresh, apply_non_displayed_trade, apply_cross_trade,
  apply_trade_cancel, apply_cross_correction, drop_order, place_order, execute_order, log_trade,
}
use nyse_pillar_market_data.OrderBook.Dispatch.{handle, on_message, replay, is_halted}
use nyse_pillar_market_data.OrderBook.Feed.{book_of, get_or_create_book-on_message}

module _ {D : Type 0} where
  -- The halt state after one message, given that before it: '4' halts, '5' resumes, and nothing else
  -- has an effect.
  abbrev pub halt_after : Message D → Bool → Bool
  halt_after (security_status m) h =
      if m.security_status == b'4' then true else (if m.security_status == b'5' then false else h)
  halt_after _ h = h

  -- The halt state of a symbol after a feed, read off its status messages alone.
  abbrev pub halt_state : Text → List (Message D) → Bool → Bool
  halt_state s [] h = h
  halt_state s (m ∷ ms) h =
      halt_state s ms (if text_eq.beq (message_symbol m) s then halt_after m h else h)

module _ {D : Type 0} ⦃d : Double D⦄ where
  add_level-halted :
      (book : SymbolBook D) (side : ℕ) (price : D) (volume : ℕ)
      → (add_level book side price volume).halted ≡ book.halted
  unfolding add_level
  add_level-halted book side price volume = ground arith

  remove_level-halted :
      (book : SymbolBook D) (side : ℕ) (price : D) (volume : ℕ)
      → (remove_level book side price volume).0.halted ≡ book.halted
  unfolding remove_level
  remove_level-halted book side price volume = ground arith

  drop_order-halted : (id : ℕ) (book : SymbolBook D) → (drop_order id book).0.halted ≡ book.halted
  unfolding drop_order
  drop_order-halted id book = grind (arith, remove_level-halted)

  handle-halted :
      (m : Message D) (book : SymbolBook D) → (handle m book).0.halted ≡ halt_after m book.halted
  unfolding handle apply_symbol_index_mapping apply_security_status apply_add_order
      apply_modify_order apply_delete_order apply_order_execution apply_replace_order
      apply_retail_price_improvement apply_imbalance apply_add_order_refresh
      apply_non_displayed_trade apply_cross_trade apply_trade_cancel apply_cross_correction
      place_order execute_order log_trade recompute_stats
  handle-halted (security_status m) book = ground arith
  handle-halted (symbol_index_mapping m) book = refl
  handle-halted (add_order m) book = add_level-halted _ m.side m.price m.volume
  handle-halted (add_order_refresh m) book = add_level-halted _ m.side m.price m.volume
  handle-halted (modify_order m) book = grind (arith, remove_level-halted, add_level-halted)
  handle-halted (delete_order m) book = drop_order-halted m.order_id book
  handle-halted (order_execution m) book = grind (arith, remove_level-halted)
  handle-halted (replace_order m) book = grind (arith, drop_order-halted, add_level-halted)
  handle-halted (retail_price_improvement m) book = refl
  handle-halted (imbalance m) book = refl
  handle-halted (non_displayed_trade m) book = refl
  handle-halted (cross_trade m) book = refl
  handle-halted (trade_cancel m) book = ground arith
  handle-halted (cross_correction m) book = ground arith

  halted-on_message :
      (s : Text) (m : Message D) (ob : OrderBook D)
      → (get_or_create_book s (on_message m ob)).halted ≡ (
          if text_eq.beq (message_symbol m) s
          then halt_after m (get_or_create_book s ob).halted
          else (get_or_create_book s ob).halted)
  halted-on_message s m ob = ground (
    arith,
    get_or_create_book-on_message s m ob,
    handle-halted m (book_of ob m),
    text_eq.beq_iff (message_symbol m) s,
  )

  replay-halted :
      (s : Text) (ms : List (Message D)) (ob : OrderBook D)
      → (get_or_create_book s (replay ms ob)).halted
        ≡ halt_state s ms (get_or_create_book s ob).halted
  unfolding replay
  replay-halted s [] ob = refl
  replay-halted s (m ∷ ms) ob =
      replay-halted s ms (on_message m ob) ∙ ap (halt_state s ms) (halted-on_message s m ob)

  -- After any feed, `IsHalted` answers what the last trading halt or resume message of the symbol
  -- says, and false where there is none; no other message and no other symbol has an effect.
  pub is_halted-replay :
      (s : Text) (ms : List (Message D))
      → is_halted s (replay ms new_order_book) ≡ halt_state s ms false
  unfolding is_halted find
  is_halted-replay s ms = ground (arith, replay-halted s ms new_order_book)
