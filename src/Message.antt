-- ===== src/Message.antt =====
-- include/message.hpp: the public messages. A `char` is its byte, an unsigned integer its value, and a
-- `double` a value of the parameter `D`. `Message` joins the tag and the payload that the `void *` of
-- the source points to, so the cast by tag is a match.
use nyse_pillar_market_data.Prelude.{ℕ, Bool, Option, Text}

pub data MessageType : Type 0 where
  symbol_index_mapping : MessageType
  security_status : MessageType
  add_order : MessageType
  modify_order : MessageType
  delete_order : MessageType
  order_execution : MessageType
  replace_order : MessageType
  retail_price_improvement : MessageType
  imbalance : MessageType
  add_order_refresh : MessageType
  non_displayed_trade : MessageType
  cross_trade : MessageType
  trade_cancel : MessageType
  cross_correction : MessageType

pub record SymbolIndexMapping (D : Type 0) : Type 0 where
  pub symbol : Text
  pub market_id : ℕ
  pub system_id : ℕ
  pub exchange_code : ℕ
  pub security_type : ℕ
  pub lot_size : ℕ
  pub prev_close_price : D
  pub prev_close_volume : ℕ
  pub price_resolution : ℕ
  pub round_lot : ℕ
  pub mpv : D
  pub unit_of_trade : ℕ

pub record SecurityStatus (D : Type 0) : Type 0 where
  pub nanos_since_midnight : ℕ
  pub symbol : Text
  pub symbol_seq_num : ℕ
  pub security_status : ℕ
  pub halt_condition : Option ℕ
  pub price1 : Option D
  pub price2 : Option D
  pub ssr_triggering_exchange_id : Option ℕ
  pub ssr_triggering_volume : Option ℕ
  pub time : Option ℕ
  pub ssr_state : Option ℕ
  pub market_state : Option ℕ

pub record AddOrder (D : Type 0) : Type 0 where
  pub nanos_since_midnight : ℕ
  pub symbol : Text
  pub symbol_seq_num : ℕ
  pub order_id : ℕ
  pub price : D
  pub volume : ℕ
  pub side : ℕ
  pub firm_id : Text

pub record ModifyOrder (D : Type 0) : Type 0 where
  pub nanos_since_midnight : ℕ
  pub symbol : Text
  pub symbol_seq_num : ℕ
  pub order_id : ℕ
  pub price : D
  pub volume : ℕ
  pub side : ℕ

pub record DeleteOrder : Type 0 where
  pub nanos_since_midnight : ℕ
  pub symbol : Text
  pub symbol_seq_num : ℕ
  pub order_id : ℕ

pub record OrderExecution (D : Type 0) : Type 0 where
  pub nanos_since_midnight : ℕ
  pub symbol : Text
  pub symbol_seq_num : ℕ
  pub order_id : ℕ
  pub trade_id : ℕ
  pub price : D
  pub volume : ℕ
  pub printed_to_sip : Bool

pub record ReplaceOrder (D : Type 0) : Type 0 where
  pub nanos_since_midnight : ℕ
  pub symbol : Text
  pub symbol_seq_num : ℕ
  pub order_id : ℕ
  pub new_order_id : ℕ
  pub price : D
  pub volume : ℕ
  pub side : ℕ

pub record RetailPriceImprovement : Type 0 where
  pub nanos_since_midnight : ℕ
  pub symbol : Text
  pub symbol_seq_num : ℕ
  pub rpi_indicator : Option ℕ

pub record Imbalance (D : Type 0) : Type 0 where
  pub nanos_since_midnight : ℕ
  pub symbol : Text
  pub symbol_seq_num : ℕ
  pub reference_price : D
  pub paired_qty : ℕ
  pub total_imbalance_qty : ℕ
  pub market_imbalance_qty : ℕ
  pub auction_time : ℕ
  pub auction_type : ℕ
  pub imbalance_side : ℕ
  pub continuous_book_clearing_price : D
  pub auction_interest_clearing_price : D
  pub ssr_filing_price : D
  pub indicative_match_price : D
  pub upper_collar : D
  pub lower_collar : D
  pub auction_status : ℕ
  pub freeze_status : ℕ
  pub num_extensions : ℕ
  pub unpaired_quantity : ℕ
  pub unpaired_side : ℕ
  pub significant_imbalance : ℕ

pub record AddOrderRefresh (D : Type 0) : Type 0 where
  pub nanos_since_midnight : ℕ
  pub symbol : Text
  pub symbol_seq_num : ℕ
  pub order_id : ℕ
  pub price : D
  pub volume : ℕ
  pub side : ℕ
  pub firm_id : Text

pub record NonDisplayedTrade (D : Type 0) : Type 0 where
  pub nanos_since_midnight : ℕ
  pub symbol : Text
  pub symbol_seq_num : ℕ
  pub trade_id : ℕ
  pub price : D
  pub volume : ℕ
  pub printed_to_sip : Bool

pub record CrossTrade (D : Type 0) : Type 0 where
  pub nanos_since_midnight : ℕ
  pub symbol : Text
  pub symbol_seq_num : ℕ
  pub cross_id : ℕ
  pub price : D
  pub volume : ℕ
  pub cross_type : ℕ

pub record TradeCancel : Type 0 where
  pub nanos_since_midnight : ℕ
  pub symbol : Text
  pub symbol_seq_num : ℕ
  pub trade_id : ℕ

pub record CrossCorrection : Type 0 where
  pub nanos_since_midnight : ℕ
  pub symbol : Text
  pub symbol_seq_num : ℕ
  pub cross_id : ℕ
  pub volume : ℕ

pub data Message (D : Type 0) : Type 0 where
  symbol_index_mapping : SymbolIndexMapping D → Message D
  security_status : SecurityStatus D → Message D
  add_order : AddOrder D → Message D
  modify_order : ModifyOrder D → Message D
  delete_order : DeleteOrder → Message D
  order_execution : OrderExecution D → Message D
  replace_order : ReplaceOrder D → Message D
  retail_price_improvement : RetailPriceImprovement → Message D
  imbalance : Imbalance D → Message D
  add_order_refresh : AddOrderRefresh D → Message D
  non_displayed_trade : NonDisplayedTrade D → Message D
  cross_trade : CrossTrade D → Message D
  trade_cancel : TradeCancel → Message D
  cross_correction : CrossCorrection → Message D

-- The tag that travels with a payload.
unfoldable pub message_type : {D : Type 0} → Message D → MessageType
message_type (Message.symbol_index_mapping m) = MessageType.symbol_index_mapping
message_type (Message.security_status m) = MessageType.security_status
message_type (Message.add_order m) = MessageType.add_order
message_type (Message.modify_order m) = MessageType.modify_order
message_type (Message.delete_order m) = MessageType.delete_order
message_type (Message.order_execution m) = MessageType.order_execution
message_type (Message.replace_order m) = MessageType.replace_order
message_type (Message.retail_price_improvement m) = MessageType.retail_price_improvement
message_type (Message.imbalance m) = MessageType.imbalance
message_type (Message.add_order_refresh m) = MessageType.add_order_refresh
message_type (Message.non_displayed_trade m) = MessageType.non_displayed_trade
message_type (Message.cross_trade m) = MessageType.cross_trade
message_type (Message.trade_cancel m) = MessageType.trade_cancel
message_type (Message.cross_correction m) = MessageType.cross_correction

-- The symbol that a message is about.
unfoldable pub message_symbol : {D : Type 0} → Message D → Text
message_symbol (Message.symbol_index_mapping m) = m.symbol
message_symbol (Message.security_status m) = m.symbol
message_symbol (Message.add_order m) = m.symbol
message_symbol (Message.modify_order m) = m.symbol
message_symbol (Message.delete_order m) = m.symbol
message_symbol (Message.order_execution m) = m.symbol
message_symbol (Message.replace_order m) = m.symbol
message_symbol (Message.retail_price_improvement m) = m.symbol
message_symbol (Message.imbalance m) = m.symbol
message_symbol (Message.add_order_refresh m) = m.symbol
message_symbol (Message.non_displayed_trade m) = m.symbol
message_symbol (Message.cross_trade m) = m.symbol
message_symbol (Message.trade_cancel m) = m.symbol
message_symbol (Message.cross_correction m) = m.symbol
