-- ===== src/NyseParser/Bounds.antt =====
-- What a line gives is made of 64-bit words, if `std::from_chars` gives such.
use nyse_pillar_market_data.Prelude.{
  ◌<◌, ◌≤◌, ◌≡◌, List, [], ◌∷◌, some, Text, All, arith, inl, inr, length, Option-cases,
}
use nyse_pillar_market_data.Prelude.Word.{u64_mod}
use nyse_pillar_market_data.Double.{Double}
use nyse_pillar_market_data.Message.{Message, MessageType}
use nyse_pillar_market_data.Sequence.{ParserData}
use nyse_pillar_market_data.Sequence.Counts.{Header, numbers}
use nyse_pillar_market_data.Csv.{CsvReader, csv_reader}
use nyse_pillar_market_data.Csv.Fields.{StdNumbers, value}
use nyse_pillar_market_data.Csv.Bounds.{IsBounded, populate_u64-lt, populate_u8-lt}
use nyse_pillar_market_data.Wire.{MessageHeader, message_header}
use nyse_pillar_market_data.Wire.Orders.{WireOrderExecution, wire_order_execution}
use nyse_pillar_market_data.Wire.Trades.{
  WireNonDisplayedTrade, WireCrossTrade, WireCrossCorrection, wire_non_displayed_trade,
  wire_cross_trade, wire_cross_correction,
}
use nyse_pillar_market_data.OrderBook.Statistics.{IsSmall, AreSmall}
use nyse_pillar_market_data.Engine.Steps.Running.{messages}
use nyse_pillar_market_data.NyseParser.{type_of, decode, parse_next}
use nyse_pillar_market_data.NyseParser.Emission.{Expected-cases, nyse_parser}
use nyse_pillar_market_data.NyseParser.Lines.{headers}

module _ {D : Type 0} (lib : StdNumbers D) (bounded : IsBounded lib) where
  message_header-lt :
      (r : CsvReader) (h : MessageHeader)
      → (message_header lib 0 r).1 ≡ value h
      → h.sequence_number < u64_mod
  unfolding message_header
  message_header-lt r h e = grind (arith, populate_u64-lt lib bounded)

  message_header-msg_type :
      (r : CsvReader) (h : MessageHeader) → (message_header lib 0 r).1 ≡ value h → h.msg_type < 256
  unfolding message_header
  message_header-msg_type r h e = grind (arith, populate_u8-lt lib bounded)

  wire_order_execution-volume :
      (r : CsvReader) (m : WireOrderExecution D)
      → (wire_order_execution lib 0 r).1 ≡ value m
      → m.volume < u64_mod
  unfolding wire_order_execution
  wire_order_execution-volume r m h = grind (arith, populate_u64-lt lib bounded)

  wire_non_displayed_trade-volume :
      (r : CsvReader) (m : WireNonDisplayedTrade D)
      → (wire_non_displayed_trade lib 0 r).1 ≡ value m
      → m.volume < u64_mod
  unfolding wire_non_displayed_trade
  wire_non_displayed_trade-volume r m h = grind (arith, populate_u64-lt lib bounded)

  wire_cross_trade-volume :
      (r : CsvReader) (m : WireCrossTrade D)
      → (wire_cross_trade lib 0 r).1 ≡ value m
      → m.volume < u64_mod
  unfolding wire_cross_trade
  wire_cross_trade-volume r m h = grind (arith, populate_u64-lt lib bounded)

  wire_cross_correction-volume :
      (r : CsvReader) (m : WireCrossCorrection)
      → (wire_cross_correction lib 0 r).1 ≡ value m
      → m.volume < u64_mod
  unfolding wire_cross_correction
  wire_cross_correction-volume r m h = grind (arith, populate_u64-lt lib bounded)

module _ {D : Type 0} ⦃d : Double D⦄ (lib : StdNumbers D) (bounded : IsBounded lib) where
  decode-IsSmall :
      (type : MessageType) (r : CsvReader) (m : Message D)
      → (decode lib type r).1 ≡ value m
      → IsSmall m
  unfolding decode
  decode-IsSmall MessageType.symbol_index_mapping r m h = ground arith
  decode-IsSmall MessageType.security_status r m h = ground arith
  decode-IsSmall MessageType.add_order r m h = ground arith
  decode-IsSmall MessageType.modify_order r m h = ground arith
  decode-IsSmall MessageType.delete_order r m h = ground arith
  decode-IsSmall MessageType.replace_order r m h = ground arith
  decode-IsSmall MessageType.retail_price_improvement r m h = ground arith
  decode-IsSmall MessageType.imbalance r m h = ground arith
  decode-IsSmall MessageType.add_order_refresh r m h = ground arith
  decode-IsSmall MessageType.trade_cancel r m h = ground arith
  decode-IsSmall MessageType.order_execution r m h =
      grind (arith, wire_order_execution-volume lib bounded r)
  decode-IsSmall MessageType.non_displayed_trade r m h =
      grind (arith, wire_non_displayed_trade-volume lib bounded r)
  decode-IsSmall MessageType.cross_trade r m h =
      grind (arith, wire_cross_trade-volume lib bounded r)
  decode-IsSmall MessageType.cross_correction r m h =
      grind (arith, wire_cross_correction-volume lib bounded r)

  -- The message of any line has a 64-bit volume.
  parse_next-IsSmall :
      (p : ParserData) (line : Text) (m : Message D)
      → (parse_next lib p line).1 ≡ some m
      → IsSmall m
  unfolding parse_next
  parse_next-IsSmall p line m e =
      let (reader, header) = message_header lib 0 (csv_reader line) in
      elim (Expected-cases header) [
        | inr (x, bad) ↦ absurd (ground (arith, bad))
        | inl (h, ok) ↦ elim (Option-cases (type_of h.msg_type)) [
          | inl unknown ↦ absurd (ground (arith, ok, unknown))
          | inr (type, known) ↦ elim (Expected-cases (decode lib type reader).1) [
            | inr (x, bad) ↦ absurd (ground (arith, ok, known, bad))
            | inl (m', good) ↦ decode-IsSmall type reader m (ground (arith, ok, known, good))
          ]
        ]
      ]

  pub messages-AreSmall :
      (p : ParserData) (lines : List Text) → AreSmall (messages (nyse_parser lib) p lines)
  unfolding messages
  messages-AreSmall p [] = tt
  messages-AreSmall p (l ∷ ls) =
      let rest = messages-AreSmall (parse_next lib p l).0 ls in
      elim (Option-cases (parse_next lib p l).1) [
        | inl e ↦ rw e rest
        | inr (m, e) ↦ rw e (parse_next-IsSmall p l m e, rest)
      ]

module _ {D : Type 0} (lib : StdNumbers D) (bounded : IsBounded lib) where
  pub headers-bounded :
      (lines : List Text)
      → All (λ s. s < u64_mod) (numbers (headers lib lines))
        × All (λ (h : Header). h.msg_type < 256) (headers lib lines)
        × (length (headers lib lines) ≤ length lines)
  unfolding headers
  headers-bounded [] = (tt, tt, omega arith)
  headers-bounded (l ∷ ls) =
      let (small, types, few) = headers-bounded ls in
      elim (Expected-cases (message_header lib 0 (csv_reader l)).1) [
        | inr (e, bad) ↦ rw (bad, headers) (small, types, omega (arith, few))
        | inl (h, ok) ↦
            rw (ok, headers)
              (
                (message_header-lt lib bounded (csv_reader l) h ok, small),
                (message_header-msg_type lib bounded (csv_reader l) h ok, types),
                omega (arith, few),
              )
      ]
