-- ===== src/OrderBook/Tests/Display.antt =====
-- The displayed book at concrete messages.
use nyse_pillar_market_data.Prelude.{
  ◌≡◌, ◌<◌, ◌+◌, refl, true, List, [], ◌∷◌, none, some, text_eq, nat_eq, text_beq, arith,
}
use nyse_pillar_market_data.Double.{Ticks, ticks_double, Ticks-IsOrdered, less, greater}
use nyse_pillar_market_data.Map.{find, assign, erase, sum_values}
use nyse_pillar_market_data.Levels.{find_level, add_volume, take_volume, set_volume, erase_level}
use nyse_pillar_market_data.Message.{
  Message, add_order, delete_order, order_execution, replace_order, security_status, message_symbol,
}
use nyse_pillar_market_data.OrderBook.Book.{
  OrderBook, SymbolBook, new_order_book, get_or_create_book, add_level, remove_level, append_trade,
}
use nyse_pillar_market_data.OrderBook.Handlers.{
  fine, place_order, drop_order, log_trade, execute_order, apply_add_order, apply_delete_order,
  apply_replace_order, apply_order_execution, apply_add_order_refresh,
}
use nyse_pillar_market_data.OrderBook.Dispatch.{
  with_book, handle, on_message, replay, get_top_of_book, get_daily_stats, is_halted,
  get_symbol_info, get_imbalance,
}
use nyse_pillar_market_data.OrderBook.Feed.{
  IsValid, IsWellFormed, replay-new_order_book, on_message-book_build_failures,
  on_message-other_symbol,
}
use nyse_pillar_market_data.OrderBook.Top.{get_top_of_book-IsTop}
use nyse_pillar_market_data.Prelude.Word.{u64_mod, add64}
use nyse_pillar_market_data.OrderBook.Agreement.{resting_at, is_ask}
use nyse_pillar_market_data.OrderBook.Consistency.{IsConsistent}
use nyse_pillar_market_data.OrderBook.Invariant.{handle-IsConsistent}
use nyse_pillar_market_data.OrderBook.Top.{IsTop}
use nyse_pillar_market_data.OrderBook.Book.{is_bid}
use nyse_pillar_market_data.OrderBook.Refresh.{level_at, apply_add_order_refresh-not-IsConsistent}
use nyse_pillar_market_data.OrderBook.Undo.{apply_delete_order-apply_add_order}
use nyse_pillar_market_data.OrderBook.Parts.{trade_part, handle-trade_part}
use nyse_pillar_market_data.OrderBook.Halt.{is_halted-replay}
use nyse_pillar_market_data.OrderBook.Tests.Data.{
  aapl, ibm, add, delete, execution, replacement, refresh, status,
}

-- Two bids and an ask; the ask is executed in part, a bid replaced and the other deleted.
abbrev feed : List (Message Ticks)
feed =
    add_order (add 1 b'B' 100 50)
    ∷ add_order (add 2 b'B' 101 30)
    ∷ add_order (add 3 b'S' 105 20)
    ∷ order_execution (execution 3 7 105 5)
    ∷ replace_order (replacement 2 4 102 10)
    ∷ delete_order (delete 1)
    ∷ []

feed_top : get_top_of_book aapl (replay feed new_order_book) ≡ record {
  best_bid = some (record { price = 102; aggregate_volume = 10 });
  best_ask = some (record { price = 105; aggregate_volume = 15 });
}
unfolding get_top_of_book replay on_message with_book handle message_symbol find assign erase
    text_beq apply_add_order apply_order_execution apply_replace_order apply_delete_order
    place_order drop_order log_trade execute_order append_trade add_level remove_level find_level
    add_volume take_volume set_volume erase_level
feed_top = refl

feed-IsWellFormed : IsWellFormed new_order_book feed
unfolding replay on_message with_book handle message_symbol find assign erase text_beq sum_values
    apply_add_order apply_order_execution apply_replace_order apply_delete_order place_order
    drop_order log_trade execute_order append_trade add_level remove_level find_level add_volume
    take_volume set_volume erase_level
feed-IsWellFormed = (
  (refl, (omega arith, omega arith)),
  refl,
  (
    (refl, (omega arith, omega arith)),
    refl,
    (
      (refl, (omega arith, omega arith)),
      refl,
      (tt, refl, ((refl, (omega arith, omega arith)), refl, (tt, refl, tt))),
    ),
  ),
)

abbrev after : OrderBook Ticks
after = replay feed new_order_book

replay-new_order_book_example : IsValid after × (after.book_build_failures ≡ 0)
replay-new_order_book_example = replay-new_order_book Ticks-IsOrdered feed feed-IsWellFormed

after-IsValid : IsValid after
after-IsValid = (replay-new_order_book Ticks-IsOrdered feed feed-IsWellFormed).0

get_top_of_book-IsTop_example :
    let top = get_top_of_book aapl after in
    let orders = (get_or_create_book aapl after).orders in
    IsTop greater is_bid orders top.best_bid × IsTop less is_ask orders top.best_ask
get_top_of_book-IsTop_example = get_top_of_book-IsTop Ticks-IsOrdered after aapl after-IsValid

abbrev aapl_book : SymbolBook Ticks
aapl_book = get_or_create_book aapl after

add_fits :
    (find 5 aapl_book.orders ≡ none)
    × ((0 < 7) × (resting_at aapl_book.orders b'B' 102 + 7 < u64_mod))
unfolding replay on_message with_book handle message_symbol find assign erase text_beq sum_values
    apply_add_order apply_order_execution apply_replace_order apply_delete_order place_order
    drop_order log_trade execute_order append_trade add_level remove_level find_level add_volume
    take_volume set_volume erase_level
add_fits = (refl, (omega arith, omega arith))

handle-IsConsistent_example : IsConsistent (handle (add_order (add 5 b'B' 102 7)) aapl_book).0
handle-IsConsistent_example =
    handle-IsConsistent Ticks-IsOrdered (add_order (add 5 b'B' 102 7)) aapl_book add_fits
      (after-IsValid.every aapl)

on_message-book_build_failures_example :
    (on_message (delete_order (delete 9)) after).book_build_failures ≡ add64 0 1
unfolding replay on_message with_book handle message_symbol find assign erase text_beq sum_values
    apply_add_order apply_order_execution apply_replace_order apply_delete_order place_order
    drop_order log_trade execute_order append_trade add_level remove_level find_level add_volume
    take_volume set_volume erase_level
on_message-book_build_failures_example =
    on_message-book_build_failures Ticks-IsOrdered (delete_order (delete 9)) after after-IsValid

-- Order 4 is live, as the refresh gives it.
refreshed : find 4 aapl_book.orders ≡ some (record { price = 102; volume = 10; side = b'B' })
unfolding replay on_message with_book handle message_symbol find assign erase text_beq sum_values
    apply_add_order apply_order_execution apply_replace_order apply_delete_order place_order
    drop_order log_trade execute_order append_trade add_level remove_level find_level add_volume
    take_volume set_volume erase_level
refreshed = refl

refresh_fits : resting_at aapl_book.orders b'B' 102 + 10 < u64_mod
unfolding replay on_message with_book handle message_symbol find assign erase text_beq sum_values
    apply_add_order apply_order_execution apply_replace_order apply_delete_order place_order
    drop_order log_trade execute_order append_trade add_level remove_level find_level add_volume
    take_volume set_volume erase_level
refresh_fits = omega arith

apply_add_order_refresh-not-IsConsistent_example :
    let book = (apply_add_order_refresh (refresh 4 b'B' 102 10) aapl_book).0 in
    (level_at book b'B' 102 ≡ level_at aapl_book b'B' 102 + 10)
    × (resting_at book.orders b'B' 102 ≡ resting_at aapl_book.orders b'B' 102)
    × ¬ IsConsistent book
apply_add_order_refresh-not-IsConsistent_example =
    apply_add_order_refresh-not-IsConsistent Ticks-IsOrdered (refresh 4 b'B' 102 10) aapl_book
      (after-IsValid.every aapl) refreshed (omega arith) refresh_fits

apply_delete_order-apply_add_order_example :
    apply_delete_order (delete 5) (apply_add_order (add 5 b'B' 102 7) aapl_book).0
    ≡ (aapl_book, fine)
apply_delete_order-apply_add_order_example =
    apply_delete_order-apply_add_order Ticks-IsOrdered (add 5 b'B' 102 7) (delete 5) aapl_book refl
      add_fits.0 add_fits.1.1 (after-IsValid.every aapl)

handle-trade_part_example :
    trade_part (handle (delete_order (delete 4)) aapl_book).0 ≡ trade_part aapl_book
handle-trade_part_example = handle-trade_part (delete_order (delete 4)) aapl_book refl

on_message-other_symbol_example :
    let after' = on_message (delete_order (delete 4)) after in
    (get_top_of_book ibm after' ≡ get_top_of_book ibm after)
    × (get_daily_stats ibm after' ≡ get_daily_stats ibm after)
    × (is_halted ibm after' ≡ is_halted ibm after)
    × (get_symbol_info ibm after' ≡ get_symbol_info ibm after)
    × (get_imbalance ibm after' ≡ get_imbalance ibm after)
unfolding text_beq message_symbol
on_message-other_symbol_example = on_message-other_symbol (delete_order (delete 4)) after ibm refl

abbrev halts : List (Message Ticks)
halts =
    security_status (status aapl b'4')
    ∷ security_status (status ibm b'5')
    ∷ delete_order (delete 1)
    ∷ []

is_halted-replay_example : is_halted aapl (replay halts new_order_book) ≡ true
unfolding text_beq message_symbol
is_halted-replay_example = is_halted-replay aapl halts
