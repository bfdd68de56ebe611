-- ===== src/OrderBook.antt =====
-- include/model/order_book.hpp and src/model/order_book.cpp: `class OrderBook`. `Book` has the state
-- and the helpers, `Handlers` the effect of each message on the book of its symbol, `Dispatch` the
-- whole order book with its accessors; the other modules prove.
pub mod Book
pub mod Handlers
pub mod Dispatch
pub mod Side
pub mod Agreement
pub mod Consistency
pub mod Orders
pub mod Invariant
pub mod Feed
pub mod Top
pub mod Parts
pub mod Trades
pub mod Statistics
pub mod Refresh
pub mod Halt
pub mod Undo
mod Tests
