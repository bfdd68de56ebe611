-- ===== src/Wire/Orders.antt =====
-- include/schema/nyse/nyse_types.hpp: the lines about orders.
use nyse_pillar_market_data.Prelude.{ℕ, ◌+◌, Option, Text}
use nyse_pillar_market_data.Csv.Fields.{
  StdNumbers, Decode, return, ◌>>=◌, populate_string, populate_char, populate_optional, populate_u8,
  populate_u64, populate_double,
}
use nyse_pillar_market_data.Wire.{PerSymbolHeader, per_symbol_header}

pub record WireAddOrder (D : Type 0) : Type 0 where
  pub header : PerSymbolHeader
  pub order_id : ℕ
  pub price : D
  pub volume : ℕ
  pub side : ℕ
  pub firm_id : Text
  pub reserved : Option ℕ

pub record WireModifyOrder (D : Type 0) : Type 0 where
  pub header : PerSymbolHeader
  pub order_id : ℕ
  pub price : D
  pub volume : ℕ
  pub position_change : Option ℕ
  pub side : ℕ
  pub reserved2 : Option ℕ

pub record WireDeleteOrder : Type 0 where
  pub header : PerSymbolHeader
  pub order_id : ℕ
  pub reserved : Option ℕ

pub record WireOrderExecution (D : Type 0) : Type 0 where
  pub header : PerSymbolHeader
  pub order_id : ℕ
  pub trade_id : ℕ
  pub price : D
  pub volume : ℕ
  pub printable_flag : ℕ
  pub reserved1 : Option ℕ
  pub trade_condition1 : Option ℕ
  pub trade_condition2 : Option ℕ
  pub trade_condition3 : Option ℕ
  pub trade_condition4 : Option ℕ

pub record WireReplaceOrder (D : Type 0) : Type 0 where
  pub header : PerSymbolHeader
  pub order_id : ℕ
  pub new_order_id : ℕ
  pub price : D
  pub volume : ℕ
  pub side : ℕ
  pub reserved2 : Option ℕ

pub record WireAddOrderRefresh (D : Type 0) : Type 0 where
  pub header : PerSymbolHeader
  pub order_id : ℕ
  pub price : D
  pub volume : ℕ
  pub side : ℕ
  pub firm_id : Text
  pub reserved : Option ℕ

module _ {D : Type 0} (lib : StdNumbers D) where
  unfoldable pub wire_add_order : ℕ → Decode (WireAddOrder D)
  wire_add_order offset = do
    header ← per_symbol_header lib offset
    order_id ← populate_u64 lib (offset + 5)
    price ← populate_double lib (offset + 6)
    volume ← populate_u64 lib (offset + 7)
    side ← populate_char (offset + 8)
    firm_id ← populate_string (offset + 9)
    reserved ← populate_optional (populate_u64 lib) (offset + 10)
    return (record {
      header = header;
      order_id = order_id;
      price = price;
      volume = volume;
      side = side;
      firm_id = firm_id;
      reserved = reserved;
    })

  unfoldable pub wire_modify_order : ℕ → Decode (WireModifyOrder D)
  wire_modify_order offset = do
    header ← per_symbol_header lib offset
    order_id ← populate_u64 lib (offset + 5)
    price ← populate_double lib (offset + 6)
    volume ← populate_u64 lib (offset + 7)
    position_change ← populate_optional (populate_u64 lib) (offset + 8)
    side ← populate_char (offset + 9)
    reserved2 ← populate_optional (populate_u64 lib) (offset + 10)
    return (record {
      header = header;
      order_id = order_id;
      price = price;
      volume = volume;
      position_change = position_change;
      side = side;
      reserved2 = reserved2;
    })

  unfoldable pub wire_delete_order : ℕ → Decode WireDeleteOrder
  wire_delete_order offset = do
    header ← per_symbol_header lib offset
    order_id ← populate_u64 lib (offset + 5)
    reserved ← populate_optional (populate_u64 lib) (offset + 6)
    return (record { header = header; order_id = order_id; reserved = reserved })

  unfoldable pub wire_order_execution : ℕ → Decode (WireOrderExecution D)
  wire_order_execution offset = do
    header ← per_symbol_header lib offset
    order_id ← populate_u64 lib (offset + 5)
    trade_id ← populate_u64 lib (offset + 6)
    price ← populate_double lib (offset + 7)
    volume ← populate_u64 lib (offset + 8)
    printable_flag ← populate_u8 lib (offset + 9)
    reserved1 ← populate_optional (populate_u64 lib) (offset + 10)
    trade_condition1 ← populate_optional populate_char (offset + 11)
    trade_condition2 ← populate_optional populate_char (offset + 12)
    trade_condition3 ← populate_optional populate_char (offset + 13)
    trade_condition4 ← populate_optional populate_char (offset + 14)
    return (record {
      header = header;
      order_id = order_id;
      trade_id = trade_id;
      price = price;
      volume = volume;
      printable_flag = printable_flag;
      reserved1 = reserved1;
      trade_condition1 = trade_condition1;
      trade_condition2 = trade_condition2;
      trade_condition3 = trade_condition3;
      trade_condition4 = trade_condition4;
    })

  unfoldable pub wire_replace_order : ℕ → Decode (WireReplaceOrder D)
  wire_replace_order offset = do
    header ← per_symbol_header lib offset
    order_id ← populate_u64 lib (offset + 5)
    new_order_id ← populate_u64 lib (offset + 6)
    price ← populate_double lib (offset + 7)
    volume ← populate_u64 lib (offset + 8)
    side ← populate_char (offset + 9)
    reserved2 ← populate_optional (populate_u64 lib) (offset + 10)
    return (record {
      header = header;
      order_id = order_id;
      new_order_id = new_order_id;
      price = price;
      volume = volume;
      side = side;
      reserved2 = reserved2;
    })

  unfoldable pub wire_add_order_refresh : ℕ → Decode (WireAddOrderRefresh D)
  wire_add_order_refresh offset = do
    header ← per_symbol_header lib offset
    order_id ← populate_u64 lib (offset + 5)
    price ← populate_double lib (offset + 6)
    volume ← populate_u64 lib (offset + 7)
    side ← populate_char (offset + 8)
    firm_id ← populate_string (offset + 9)
    reserved ← populate_optional (populate_u64 lib) (offset + 10)
    return (record {
      header = header;
      order_id = order_id;
      price = price;
      volume = volume;
      side = side;
      firm_id = firm_id;
      reserved = reserved;
    })
