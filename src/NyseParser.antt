-- ===== src/NyseParser.antt =====
-- include/schema/nyse/parse.hpp: `schema::nyse::Parser`. A line is decoded with `CSVReader::Error` as a
-- value; no other exception is thrown by the code that is modelled, so `ParseError::unknown` never comes.
pub mod Public
pub mod Emission
pub mod Lines
pub mod Bounds
mod Tests
use nyse_pillar_market_data.Prelude.{
  ℕ, ◌≡◌, refl, Bool, true, false, List, [], ◌∷◌, Option, none, some, Text, nat_eq, arith, ◌==◌,
  if◌then◌else◌,
}
use nyse_pillar_market_data.Map.{Map, find}
use nyse_pillar_market_data.Message.{
  Message, MessageType, symbol_index_mapping, security_status, add_order, modify_order,
  delete_order, order_execution, replace_order, retail_price_improvement, imbalance,
  add_order_refresh, non_displayed_trade, cross_trade, trade_cancel, cross_correction,
}
use nyse_pillar_market_data.Sequence.{
  ParserData, ParseError, no_error, unknown_msg_type, message_decode, record_sequence,
}
use nyse_pillar_market_data.Csv.{CsvReader, csv_reader}
use nyse_pillar_market_data.Csv.Fields.{
  StdNumbers, Expected, value, unexpected, Error, Decode, return, ◌>>=◌,
}
use nyse_pillar_market_data.Wire.{message_header}
use nyse_pillar_market_data.Wire.Orders.{
  wire_add_order, wire_modify_order, wire_delete_order, wire_order_execution, wire_replace_order,
  wire_add_order_refresh,
}
use nyse_pillar_market_data.Wire.Trades.{
  wire_non_displayed_trade, wire_cross_trade, wire_trade_cancel, wire_cross_correction,
}
use nyse_pillar_market_data.Wire.Status.{
  wire_symbol_index_mapping, wire_security_status, wire_retail_price_improvement, wire_imbalance,
}
use nyse_pillar_market_data.NyseParser.Public.{
  public_symbol_index_mapping, public_security_status, public_add_order, public_modify_order,
  public_delete_order, public_order_execution, public_replace_order,
  public_retail_price_improvement, public_imbalance, public_add_order_refresh,
  public_non_displayed_trade, public_cross_trade, public_trade_cancel, public_cross_correction,
}

-- The types that are implemented, by their code.
abbrev pub implemented : Map ℕ MessageType
implemented =
    (3, MessageType.symbol_index_mapping)
    ∷ (34, MessageType.security_status)
    ∷ (100, MessageType.add_order)
    ∷ (101, MessageType.modify_order)
    ∷ (102, MessageType.delete_order)
    ∷ (103, MessageType.order_execution)
    ∷ (104, MessageType.replace_order)
    ∷ (114, MessageType.retail_price_improvement)
    ∷ (105, MessageType.imbalance)
    ∷ (106, MessageType.add_order_refresh)
    ∷ (110, MessageType.non_displayed_trade)
    ∷ (111, MessageType.cross_trade)
    ∷ (112, MessageType.trade_cancel)
    ∷ (113, MessageType.cross_correction)
    ∷ []

-- The tag of a line whose type is implemented.
unfoldable pub type_of : ℕ → Option MessageType
unfolding find
type_of msg_type = find msg_type implemented

module _ {D : Type 0} (lib : StdNumbers D) where
  -- A case of the `switch`: the rest of the line is decoded, and the message that is emitted.
  unfoldable pub decode : MessageType → Decode (Message D)
  unfolding wire_symbol_index_mapping wire_security_status wire_add_order wire_modify_order
      wire_delete_order wire_order_execution wire_replace_order wire_retail_price_improvement
      wire_imbalance wire_add_order_refresh wire_non_displayed_trade wire_cross_trade
      wire_trade_cancel wire_cross_correction
  decode MessageType.symbol_index_mapping = do
    m ← wire_symbol_index_mapping lib 0
    return (Message.symbol_index_mapping (public_symbol_index_mapping m))
  decode MessageType.security_status = do
    m ← wire_security_status lib 0
    return (Message.security_status (public_security_status m))
  decode MessageType.add_order = do
    m ← wire_add_order lib 0
    return (Message.add_order (public_add_order m))
  decode MessageType.modify_order = do
    m ← wire_modify_order lib 0
    return (Message.modify_order (public_modify_order m))
  decode MessageType.delete_order = do
    m ← wire_delete_order lib 0
    return (Message.delete_order (public_delete_order m))
  decode MessageType.order_execution = do
    m ← wire_order_execution lib 0
    return (Message.order_execution (public_order_execution m))
  decode MessageType.replace_order = do
    m ← wire_replace_order lib 0
    return (Message.replace_order (public_replace_order m))
  decode MessageType.retail_price_improvement = do
    m ← wire_retail_price_improvement lib 0
    return (Message.retail_price_improvement (public_retail_price_improvement m))
  decode MessageType.imbalance = do
    m ← wire_imbalance lib 0
    return (Message.imbalance (public_imbalance m))
  decode MessageType.add_order_refresh = do
    m ← wire_add_order_refresh lib 0
    return (Message.add_order_refresh (public_add_order_refresh m))
  decode MessageType.non_displayed_trade = do
    m ← wire_non_displayed_trade lib 0
    return (Message.non_displayed_trade (public_non_displayed_trade m))
  decode MessageType.cross_trade = do
    m ← wire_cross_trade lib 0
    return (Message.cross_trade (public_cross_trade m))
  decode MessageType.trade_cancel = do
    m ← wire_trade_cancel lib 0
    return (Message.trade_cancel (public_trade_cancel m))
  decode MessageType.cross_correction = do
    m ← wire_cross_correction lib 0
    return (Message.cross_correction (public_cross_correction m))

  -- The message of a decoded line, if there is one, and the answer.
  abbrev pub outcome : Expected Error (Message D) → Option (Message D) × ParseError
  outcome (value message) = (some message, no_error)
  outcome (unexpected e) = (none, message_decode)

  -- `ParseNext`: the line is counted as soon as its header is decoded.
  unfoldable pub parse_next : ParserData → Text → ParserData × Option (Message D) × ParseError
  unfolding message_header type_of decode record_sequence
  parse_next p line =
      let (reader, header) = message_header lib 0 (csv_reader line) in
      elim header [
        | unexpected e ↦ (p, none, message_decode)
        | value h ↦
            let counted = record_sequence h.msg_type h.sequence_number p in
            elim (type_of h.msg_type) [
              | none ↦ (counted, none, unknown_msg_type)
              | some type ↦
                  let result = outcome (decode type reader).1 in (counted, result.0, result.1)
            ]
      ]
