-- ===== src/OrderBook/Tests/Data.antt =====
-- The messages that the tests send.
use nyse_pillar_market_data.Prelude.{ℕ, true, [], ◌∷◌, none, Text}
use nyse_pillar_market_data.Double.{Ticks}
use nyse_pillar_market_data.Message.{
  AddOrder, DeleteOrder, OrderExecution, ReplaceOrder, TradeCancel, CrossTrade, CrossCorrection,
  AddOrderRefresh, SecurityStatus,
}

abbrev pub aapl : Text
aapl = b'A' ∷ b'A' ∷ b'P' ∷ b'L' ∷ []

abbrev pub ibm : Text
ibm = b'I' ∷ b'B' ∷ b'M' ∷ []

abbrev pub add : ℕ → ℕ → Ticks → ℕ → AddOrder Ticks
add id side price volume = record {
  nanos_since_midnight = 0;
  symbol = aapl;
  symbol_seq_num = 0;
  order_id = id;
  price = price;
  volume = volume;
  side = side;
  firm_id = [];
}

abbrev pub delete : ℕ → DeleteOrder
delete id = record { nanos_since_midnight = 0; symbol = aapl; symbol_seq_num = 0; order_id = id }

abbrev pub execution : ℕ → ℕ → Ticks → ℕ → OrderExecution Ticks
execution id trade_id price volume = record {
  nanos_since_midnight = 0;
  symbol = aapl;
  symbol_seq_num = 0;
  order_id = id;
  trade_id = trade_id;
  price = price;
  volume = volume;
  printed_to_sip = true;
}

abbrev pub replacement : ℕ → ℕ → Ticks → ℕ → ReplaceOrder Ticks
replacement id new_id price volume = record {
  nanos_since_midnight = 0;
  symbol = aapl;
  symbol_seq_num = 0;
  order_id = id;
  new_order_id = new_id;
  price = price;
  volume = volume;
  side = b'B';
}

abbrev pub refresh : ℕ → ℕ → Ticks → ℕ → AddOrderRefresh Ticks
refresh id side price volume = record {
  nanos_since_midnight = 0;
  symbol = aapl;
  symbol_seq_num = 0;
  order_id = id;
  price = price;
  volume = volume;
  side = side;
  firm_id = [];
}

abbrev pub cross : ℕ → Ticks → ℕ → CrossTrade Ticks
cross id price volume = record {
  nanos_since_midnight = 0;
  symbol = aapl;
  symbol_seq_num = 0;
  cross_id = id;
  price = price;
  volume = volume;
  cross_type = b'O';
}

abbrev pub cancellation : ℕ → TradeCancel
cancellation id = record {
  nanos_since_midnight = 0;
  symbol = aapl;
  symbol_seq_num = 0;
  trade_id = id;
}

abbrev pub correction : ℕ → ℕ → CrossCorrection
correction id volume = record {
  nanos_since_midnight = 0;
  symbol = aapl;
  symbol_seq_num = 0;
  cross_id = id;
  volume = volume;
}

abbrev pub status : Text → ℕ → SecurityStatus Ticks
status symbol security_status = record {
  nanos_since_midnight = 0;
  symbol = symbol;
  symbol_seq_num = 0;
  security_status = security_status;
  halt_condition = none;
  price1 = none;
  price2 = none;
  ssr_triggering_exchange_id = none;
  ssr_triggering_volume = none;
  time = none;
  ssr_state = none;
  market_state = none;
}
