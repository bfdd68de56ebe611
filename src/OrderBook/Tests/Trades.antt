-- ===== src/OrderBook/Tests/Trades.antt =====
-- Trades, cancels and corrections at concrete messages.
use nyse_pillar_market_data.Prelude.{
  ◌≡◌, refl, List, [], ◌∷◌, some, text_eq, nat_eq, text_beq, arith,
}
use nyse_pillar_market_data.Double.{Ticks, ticks_double, Ticks-IsOrdered}
use nyse_pillar_market_data.Map.{find, assign, erase, sum_values}
use nyse_pillar_market_data.Levels.{find_level, add_volume, take_volume, set_volume, erase_level}
use nyse_pillar_market_data.Message.{
  Message, add_order, order_execution, trade_cancel, cross_trade, cross_correction, message_symbol,
}
use nyse_pillar_market_data.OrderBook.Book.{
  OrderBook, SymbolBook, new_order_book, get_or_create_book, add_level, remove_level, append_trade,
  recompute_stats,
}
use nyse_pillar_market_data.OrderBook.Handlers.{
  fine, ledger_failure, place_order, drop_order, log_trade, execute_order, apply_add_order,
  apply_delete_order, apply_replace_order, apply_order_execution, apply_cross_trade,
  apply_trade_cancel, apply_cross_correction,
}
use nyse_pillar_market_data.OrderBook.Dispatch.{
  with_book, handle, on_message, replay, get_daily_stats,
}
use nyse_pillar_market_data.Prelude.{modify}
use nyse_pillar_market_data.Stats.{recompute_loop, fold_into_stats}
use nyse_pillar_market_data.Stats.Edit.{with_volume}
use nyse_pillar_market_data.Stats.Summary.{IsSummary}
use nyse_pillar_market_data.OrderBook.Trades.{IsLogged}
use nyse_pillar_market_data.OrderBook.Parts.{trade_part, display_part, handle-display_part}
use nyse_pillar_market_data.OrderBook.Statistics.{
  AreSmall, replay-IsInStep, new_order_book-IsInStep, get_daily_stats-replay-IsSummary,
  handle-IsLogged, apply_trade_cancel-twice, apply_cross_correction-eq-recompute,
}
use nyse_pillar_market_data.OrderBook.Tests.Data.{
  aapl, add, execution, cross, cancellation, correction,
}

-- An opening cross, an execution, the cross corrected, and the execution cancelled.
abbrev feed : List (Message Ticks)
feed =
    add_order (add 1 b'S' 105 20)
    ∷ cross_trade (cross 3 100 40)
    ∷ order_execution (execution 1 7 105 5)
    ∷ cross_correction (correction 3 25)
    ∷ order_execution (execution 1 8 104 5)
    ∷ trade_cancel (cancellation 7)
    ∷ []

abbrev after : OrderBook Ticks
after = replay feed new_order_book

feed_stats : get_daily_stats aapl after ≡ record {
  open_price = some 100;
  high_price = some 104;
  low_price = some 100;
  close_price = some 104;
  total_volume = 30;
}
unfolding get_daily_stats apply_cross_trade apply_cross_correction apply_trade_cancel
    recompute_stats recompute_loop fold_into_stats replay on_message with_book handle message_symbol
    find assign erase text_beq sum_values apply_add_order apply_order_execution apply_replace_order
    apply_delete_order place_order drop_order log_trade execute_order append_trade add_level
    remove_level find_level add_volume take_volume set_volume erase_level
feed_stats = refl

feed-AreSmall : AreSmall feed
feed-AreSmall = (tt, (omega arith, (omega arith, (omega arith, (omega arith, (tt, tt))))))

get_daily_stats-replay-IsSummary_example :
    IsSummary (get_or_create_book aapl after).trade_log (get_daily_stats aapl after)
get_daily_stats-replay-IsSummary_example =
    get_daily_stats-replay-IsSummary Ticks-IsOrdered feed aapl feed-AreSmall

abbrev aapl_book : SymbolBook Ticks
aapl_book = get_or_create_book aapl after

aapl_book-IsLogged : IsLogged (trade_part aapl_book)
aapl_book-IsLogged =
    (replay-IsInStep feed new_order_book feed-AreSmall new_order_book-IsInStep).every aapl

handle-IsLogged_example : IsLogged (trade_part (handle (trade_cancel (cancellation 8)) aapl_book).0)
handle-IsLogged_example =
    handle-IsLogged (trade_cancel (cancellation 8)) aapl_book tt aapl_book-IsLogged

apply_trade_cancel-twice_example :
    let once = (apply_trade_cancel (cancellation 8) aapl_book).0 in
    apply_trade_cancel (cancellation 8) once ≡ (once, ledger_failure)
apply_trade_cancel-twice_example =
    apply_trade_cancel-twice (cancellation 8) aapl_book aapl_book-IsLogged

cross_known : find 3 aapl_book.crosses_by_id ≡ some 0
unfolding apply_cross_trade apply_cross_correction apply_trade_cancel recompute_stats recompute_loop
    fold_into_stats replay on_message with_book handle message_symbol find assign erase text_beq
    sum_values apply_add_order apply_order_execution apply_replace_order apply_delete_order
    place_order drop_order log_trade execute_order append_trade add_level remove_level find_level
    add_volume take_volume set_volume erase_level
cross_known = refl

apply_cross_correction-eq-recompute_example : apply_cross_correction (correction 3 60) aapl_book ≡ (
  recompute_stats (record aapl_book { trade_log = modify aapl_book.trade_log 0 (with_volume 60) }),
  fine,
)
apply_cross_correction-eq-recompute_example =
    apply_cross_correction-eq-recompute (correction 3 60) 0 aapl_book cross_known (omega arith)
      aapl_book-IsLogged

handle-display_part_example :
    display_part (handle (trade_cancel (cancellation 8)) aapl_book).0 ≡ display_part aapl_book
handle-display_part_example = handle-display_part (trade_cancel (cancellation 8)) aapl_book refl
