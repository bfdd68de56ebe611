-- ===== src/NyseParser/Public.antt =====
-- include/schema/nyse/parse.hpp: the public message of a decoded line, a function for each case of
-- `ParseNext`.
use nyse_pillar_market_data.Prelude.{not, ◌==◌}
use nyse_pillar_market_data.Message.{
  SymbolIndexMapping, SecurityStatus, AddOrder, ModifyOrder, DeleteOrder, OrderExecution,
  ReplaceOrder, RetailPriceImprovement, Imbalance, AddOrderRefresh, NonDisplayedTrade, CrossTrade,
  TradeCancel, CrossCorrection,
}
use nyse_pillar_market_data.Wire.Orders.{
  WireAddOrder, WireModifyOrder, WireDeleteOrder, WireOrderExecution, WireReplaceOrder,
  WireAddOrderRefresh,
}
use nyse_pillar_market_data.Wire.Trades.{
  WireNonDisplayedTrade, WireCrossTrade, WireTradeCancel, WireCrossCorrection,
}
use nyse_pillar_market_data.Wire.Status.{
  WireSymbolIndexMapping, WireSecurityStatus, WireRetailPriceImprovement, WireImbalance,
}

abbrev pub public_delete_order : WireDeleteOrder → DeleteOrder
public_delete_order m = record {
  nanos_since_midnight = m.header.source_time.nanos_since_midnight;
  symbol = m.header.symbol;
  symbol_seq_num = m.header.symbol_seq_num;
  order_id = m.order_id;
}

abbrev pub public_retail_price_improvement : WireRetailPriceImprovement → RetailPriceImprovement
public_retail_price_improvement m = record {
  nanos_since_midnight = m.header.source_time.nanos_since_midnight;
  symbol = m.header.symbol;
  symbol_seq_num = m.header.symbol_seq_num;
  rpi_indicator = m.rpi_indicator;
}

abbrev pub public_trade_cancel : WireTradeCancel → TradeCancel
public_trade_cancel m = record {
  nanos_since_midnight = m.header.source_time.nanos_since_midnight;
  symbol = m.header.symbol;
  symbol_seq_num = m.header.symbol_seq_num;
  trade_id = m.trade_id;
}

abbrev pub public_cross_correction : WireCrossCorrection → CrossCorrection
public_cross_correction m = record {
  nanos_since_midnight = m.header.source_time.nanos_since_midnight;
  symbol = m.header.symbol;
  symbol_seq_num = m.header.symbol_seq_num;
  cross_id = m.cross_id;
  volume = m.volume;
}

module _ {D : Type 0} where
  abbrev pub public_symbol_index_mapping : WireSymbolIndexMapping D → SymbolIndexMapping D
  public_symbol_index_mapping m = record {
    symbol = m.symbol;
    market_id = m.market_id;
    system_id = m.system_id;
    exchange_code = m.exchange_code;
    security_type = m.security_type;
    lot_size = m.lot_size;
    prev_close_price = m.prev_close_price;
    prev_close_volume = m.prev_close_volume;
    price_resolution = m.price_resolution;
    round_lot = m.round_lot;
    mpv = m.mpv;
    unit_of_trade = m.unit_of_trade;
  }

  abbrev pub public_security_status : WireSecurityStatus D → SecurityStatus D
  public_security_status m = record {
    nanos_since_midnight = m.header.source_time.nanos_since_midnight;
    symbol = m.header.symbol;
    symbol_seq_num = m.header.symbol_seq_num;
    security_status = m.security_status;
    halt_condition = m.halt_condition;
    price1 = m.price1;
    price2 = m.price2;
    ssr_triggering_exchange_id = m.ssr_triggering_exchange_id;
    ssr_triggering_volume = m.ssr_triggering_volume;
    time = m.time;
    ssr_state = m.ssr_state;
    market_state = m.market_state;
  }

  abbrev pub public_add_order : WireAddOrder D → AddOrder D
  public_add_order m = record {
    nanos_since_midnight = m.header.source_time.nanos_since_midnight;
    symbol = m.header.symbol;
    symbol_seq_num = m.header.symbol_seq_num;
    order_id = m.order_id;
    price = m.price;
    volume = m.volume;
    side = m.side;
    firm_id = m.firm_id;
  }

  abbrev pub public_modify_order : WireModifyOrder D → ModifyOrder D
  public_modify_order m = record {
    nanos_since_midnight = m.header.source_time.nanos_since_midnight;
    symbol = m.header.symbol;
    symbol_seq_num = m.header.symbol_seq_num;
    order_id = m.order_id;
    price = m.price;
    volume = m.volume;
    side = m.side;
  }

  abbrev pub public_order_execution : WireOrderExecution D → OrderExecution D
  public_order_execution m = record {
    nanos_since_midnight = m.header.source_time.nanos_since_midnight;
    symbol = m.header.symbol;
    symbol_seq_num = m.header.symbol_seq_num;
    order_id = m.order_id;
    trade_id = m.trade_id;
    price = m.price;
    volume = m.volume;
    printed_to_sip = not (m.printable_flag == 0);
  }

  abbrev pub public_replace_order : WireReplaceOrder D → ReplaceOrder D
  public_replace_order m = record {
    nanos_since_midnight = m.header.source_time.nanos_since_midnight;
    symbol = m.header.symbol;
    symbol_seq_num = m.header.symbol_seq_num;
    order_id = m.order_id;
    new_order_id = m.new_order_id;
    price = m.price;
    volume = m.volume;
    side = m.side;
  }

  abbrev pub public_imbalance : WireImbalance D → Imbalance D
  public_imbalance m = record {
    nanos_since_midnight = m.header.source_time.nanos_since_midnight;
    symbol = m.header.symbol;
    symbol_seq_num = m.header.symbol_seq_num;
    reference_price = m.reference_price;
    paired_qty = m.paired_qty;
    total_imbalance_qty = m.total_imbalance_qty;
    market_imbalance_qty = m.market_imbalance_qty;
    auction_time = m.auction_time;
    auction_type = m.auction_type;
    imbalance_side = m.imbalance_side;
    continuous_book_clearing_price = m.continuous_book_clearing_price;
    auction_interest_clearing_price = m.auction_interest_clearing_price;
    ssr_filing_price = m.ssr_filing_price;
    indicative_match_price = m.indicative_match_price;
    upper_collar = m.upper_collar;
    lower_collar = m.lower_collar;
    auction_status = m.auction_status;
    freeze_status = m.freeze_status;
    num_extensions = m.num_extensions;
    unpaired_quantity = m.unpaired_quantity;
    unpaired_side = m.unpaired_side;
    significant_imbalance = m.significant_imbalance;
  }

  abbrev pub public_add_order_refresh : WireAddOrderRefresh D → AddOrderRefresh D
  public_add_order_refresh m = record {
    nanos_since_midnight = m.header.source_time.nanos_since_midnight;
    symbol = m.header.symbol;
    symbol_seq_num = m.header.symbol_seq_num;
    order_id = m.order_id;
    price = m.price;
    volume = m.volume;
    side = m.side;
    firm_id = m.firm_id;
  }

  abbrev pub public_non_displayed_trade : WireNonDisplayedTrade D → NonDisplayedTrade D
  public_non_displayed_trade m = record {
    nanos_since_midnight = m.header.source_time.nanos_since_midnight;
    symbol = m.header.symbol;
    symbol_seq_num = m.header.symbol_seq_num;
    trade_id = m.trade_id;
    price = m.price;
    volume = m.volume;
    printed_to_sip = not (m.printable_flag == 0);
  }

  abbrev pub public_cross_trade : WireCrossTrade D → CrossTrade D
  public_cross_trade m = record {
    nanos_since_midnight = m.header.source_time.nanos_since_midnight;
    symbol = m.header.symbol;
    symbol_seq_num = m.header.symbol_seq_num;
    cross_id = m.cross_id;
    price = m.price;
    volume = m.volume;
    cross_type = m.cross_type;
  }
