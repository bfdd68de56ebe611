-- ===== src/OrderBook/Tests.antt =====
-- The order book at concrete feeds: prices are whole ticks.
pub mod Data
mod Display
mod Trades
