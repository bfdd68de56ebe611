-- ===== src/Wire/Status.antt =====
-- include/schema/nyse/nyse_types.hpp: the lines about symbols and auctions.
use nyse_pillar_market_data.Prelude.{ℕ, ◌+◌, Option, Text}
use nyse_pillar_market_data.Csv.Fields.{
  StdNumbers, Decode, return, ◌>>=◌, populate_string, populate_char, populate_optional, populate_u8,
  populate_u64, populate_double,
}
use nyse_pillar_market_data.Wire.{MessageHeader, PerSymbolHeader, message_header, per_symbol_header}

pub record WireSymbolIndexMapping (D : Type 0) : Type 0 where
  pub header : MessageHeader
  pub symbol : Text
  pub market_id : ℕ
  pub system_id : ℕ
  pub exchange_code : ℕ
  pub security_type : ℕ
  pub lot_size : ℕ
  pub prev_close_price : D
  pub prev_close_volume : ℕ
  pub price_resolution : ℕ
  pub round_lot : ℕ
  pub mpv : D
  pub unit_of_trade : ℕ

pub record WireSecurityStatus (D : Type 0) : Type 0 where
  pub header : PerSymbolHeader
  pub security_status : ℕ
  pub halt_condition : Option ℕ
  pub price1 : Option D
  pub price2 : Option D
  pub ssr_triggering_exchange_id : Option ℕ
  pub ssr_triggering_volume : Option ℕ
  pub time : Option ℕ
  pub ssr_state : Option ℕ
  pub market_state : Option ℕ

pub record WireRetailPriceImprovement : Type 0 where
  pub header : PerSymbolHeader
  pub rpi_indicator : Option ℕ

pub record WireImbalance (D : Type 0) : Type 0 where
  pub header : PerSymbolHeader
  pub reference_price : D
  pub paired_qty : ℕ
  pub total_imbalance_qty : ℕ
  pub market_imbalance_qty : ℕ
  pub auction_time : ℕ
  pub auction_type : ℕ
  pub imbalance_side : ℕ
  pub continuous_book_clearing_price : D
  pub auction_interest_clearing_price : D
  pub ssr_filing_price : D
  pub indicative_match_price : D
  pub upper_collar : D
  pub lower_collar : D
  pub auction_status : ℕ
  pub freeze_status : ℕ
  pub num_extensions : ℕ
  pub unpaired_quantity : ℕ
  pub unpaired_side : ℕ
  pub significant_imbalance : ℕ

module _ {D : Type 0} (lib : StdNumbers D) where
  unfoldable pub wire_symbol_index_mapping : ℕ → Decode (WireSymbolIndexMapping D)
  wire_symbol_index_mapping offset = do
    header ← message_header lib offset
    symbol ← populate_string (offset + 2)
    market_id ← populate_u8 lib (offset + 3)
    system_id ← populate_u8 lib (offset + 4)
    exchange_code ← populate_char (offset + 5)
    security_type ← populate_char (offset + 6)
    lot_size ← populate_u64 lib (offset + 7)
    prev_close_price ← populate_double lib (offset + 8)
    prev_close_volume ← populate_u64 lib (offset + 9)
    price_resolution ← populate_u8 lib (offset + 10)
    round_lot ← populate_char (offset + 11)
    mpv ← populate_double lib (offset + 12)
    unit_of_trade ← populate_u8 lib (offset + 13)
    return (record {
      header = header;
      symbol = symbol;
      market_id = market_id;
      system_id = system_id;
      exchange_code = exchange_code;
      security_type = security_type;
      lot_size = lot_size;
      prev_close_price = prev_close_price;
      prev_close_volume = prev_close_volume;
      price_resolution = price_resolution;
      round_lot = round_lot;
      mpv = mpv;
      unit_of_trade = unit_of_trade;
    })

  unfoldable pub wire_security_status : ℕ → Decode (WireSecurityStatus D)
  wire_security_status offset = do
    header ← per_symbol_header lib offset
    security_status ← populate_char (offset + 5)
    halt_condition ← populate_optional populate_char (offset + 6)
    price1 ← populate_optional (populate_double lib) (offset + 7)
    price2 ← populate_optional (populate_double lib) (offset + 8)
    ssr_triggering_exchange_id ← populate_optional populate_char (offset + 9)
    ssr_triggering_volume ← populate_optional (populate_u64 lib) (offset + 10)
    time ← populate_optional (populate_u64 lib) (offset + 11)
    ssr_state ← populate_optional populate_char (offset + 12)
    market_state ← populate_optional populate_char (offset + 13)
    return (record {
      header = header;
      security_status = security_status;
      halt_condition = halt_condition;
      price1 = price1;
      price2 = price2;
      ssr_triggering_exchange_id = ssr_triggering_exchange_id;
      ssr_triggering_volume = ssr_triggering_volume;
      time = time;
      ssr_state = ssr_state;
      market_state = market_state;
    })

  unfoldable pub wire_retail_price_improvement : ℕ → Decode WireRetailPriceImprovement
  wire_retail_price_improvement offset = do
    header ← per_symbol_header lib offset
    rpi_indicator ← populate_optional populate_char (offset + 5)
    return (record { header = header; rpi_indicator = rpi_indicator })

  unfoldable pub wire_imbalance : ℕ → Decode (WireImbalance D)
  wire_imbalance offset = do
    header ← per_symbol_header lib offset
    reference_price ← populate_double lib (offset + 5)
    paired_qty ← populate_u64 lib (offset + 6)
    total_imbalance_qty ← populate_u64 lib (offset + 7)
    market_imbalance_qty ← populate_u64 lib (offset + 8)
    auction_time ← populate_u64 lib (offset + 9)
    auction_type ← populate_char (offset + 10)
    imbalance_side ← populate_char (offset + 11)
    continuous_book_clearing_price ← populate_double lib (offset + 12)
    auction_interest_clearing_price ← populate_double lib (offset + 13)
    ssr_filing_price ← populate_double lib (offset + 14)
    indicative_match_price ← populate_double lib (offset + 15)
    upper_collar ← populate_double lib (offset + 16)
    lower_collar ← populate_double lib (offset + 17)
    auction_status ← populate_u8 lib (offset + 18)
    freeze_status ← populate_u8 lib (offset + 19)
    num_extensions ← populate_u64 lib (offset + 20)
    unpaired_quantity ← populate_u64 lib (offset + 21)
    unpaired_side ← populate_char (offset + 22)
    significant_imbalance ← populate_char (offset + 23)
    return (record {
      header = header;
      reference_price = reference_price;
      paired_qty = paired_qty;
      total_imbalance_qty = total_imbalance_qty;
      market_imbalance_qty = market_imbalance_qty;
      auction_time = auction_time;
      auction_type = auction_type;
      imbalance_side = imbalance_side;
      continuous_book_clearing_price = continuous_book_clearing_price;
      auction_interest_clearing_price = auction_interest_clearing_price;
      ssr_filing_price = ssr_filing_price;
      indicative_match_price = indicative_match_price;
      upper_collar = upper_collar;
      lower_collar = lower_collar;
      auction_status = auction_status;
      freeze_status = freeze_status;
      num_extensions = num_extensions;
      unpaired_quantity = unpaired_quantity;
      unpaired_side = unpaired_side;
      significant_imbalance = significant_imbalance;
    })
