-- ===== src/NyseParser/Emission.antt =====
-- When a line emits: the law that the engine asks of a parser, and the tag of what is emitted.
use nyse_pillar_market_data.Prelude.{
  ℕ, ◌≢◌, none, nat_eq, ◌≡◌, refl, some, Text, arith, inl, inr, ◌⊎◌, Option-cases,
}
use nyse_pillar_market_data.Map.{find}
use nyse_pillar_market_data.Message.{Message, MessageType, message_type}
use nyse_pillar_market_data.Sequence.{ParserData, no_error, message_decode, unknown_msg_type}
use nyse_pillar_market_data.Engine.{LineParser, is_some, is_no_error}
use nyse_pillar_market_data.Csv.{CsvReader, csv_reader}
use nyse_pillar_market_data.Csv.Fields.{StdNumbers, Error, Expected, value, unexpected}
use nyse_pillar_market_data.Wire.{MessageHeader, message_header}
use nyse_pillar_market_data.NyseParser.{type_of, decode, parse_next}

pub Expected-cases :
    {E A : Type 0} (x : Expected E A) → ((a : A) × (x ≡ value a)) ⊎ ((e : E) × (x ≡ unexpected e))
Expected-cases (value a) = inl (a, refl)
Expected-cases (unexpected e) = inr (e, refl)

-- The code of each message type, as README.md lists them.
abbrev pub code_of : MessageType → ℕ
code_of MessageType.symbol_index_mapping = 3
code_of MessageType.security_status = 34
code_of MessageType.add_order = 100
code_of MessageType.modify_order = 101
code_of MessageType.delete_order = 102
code_of MessageType.order_execution = 103
code_of MessageType.replace_order = 104
code_of MessageType.imbalance = 105
code_of MessageType.add_order_refresh = 106
code_of MessageType.non_displayed_trade = 110
code_of MessageType.cross_trade = 111
code_of MessageType.trade_cancel = 112
code_of MessageType.cross_correction = 113
code_of MessageType.retail_price_improvement = 114

module _ {D : Type 0} (lib : StdNumbers D) where
  pub parse_next-emits :
      (p : ParserData) (line : Text)
      → is_some (parse_next lib p line).1 ≡ is_no_error (parse_next lib p line).2
  unfolding parse_next
  parse_next-emits p line = ground arith

  -- `schema::nyse::Parser` as the engine sees it.
  abbrev pub nyse_parser : LineParser (Message D) Text ParserData
  nyse_parser = record { parse_next = parse_next lib; emits_iff = parse_next-emits }

  decode-message_type :
      (type : MessageType) (r : CsvReader) (m : Message D)
      → (decode lib type r).1 ≡ value m
      → message_type m ≡ type
  unfolding decode message_type
  decode-message_type MessageType.symbol_index_mapping r m h = ground arith
  decode-message_type MessageType.security_status r m h = ground arith
  decode-message_type MessageType.add_order r m h = ground arith
  decode-message_type MessageType.modify_order r m h = ground arith
  decode-message_type MessageType.delete_order r m h = ground arith
  decode-message_type MessageType.order_execution r m h = ground arith
  decode-message_type MessageType.replace_order r m h = ground arith
  decode-message_type MessageType.retail_price_improvement r m h = ground arith
  decode-message_type MessageType.imbalance r m h = ground arith
  decode-message_type MessageType.add_order_refresh r m h = ground arith
  decode-message_type MessageType.non_displayed_trade r m h = ground arith
  decode-message_type MessageType.cross_trade r m h = ground arith
  decode-message_type MessageType.trade_cancel r m h = ground arith
  decode-message_type MessageType.cross_correction r m h = ground arith

  type_of-code_of : (n : ℕ) (type : MessageType) → type_of n ≡ some type → n ≡ code_of type
  unfolding type_of find
  type_of-code_of n type h = ground arith

  type_of-unknown : (n : ℕ) (type : MessageType) → type_of n ≡ none → n ≢ code_of type
  unfolding type_of find
  type_of-unknown n type h e = ground arith

  -- Every line, whatever is in it, is of one of three kinds. Its header does not decode: then it emits
  -- nothing, and the answer is `message_decode`. The type in its header is the code that README.md gives for
  -- a message type: then it emits a message of that type, without an error, or nothing, and the answer is
  -- `message_decode`. Or it is none of the fourteen codes: then it emits nothing, and the answer is
  -- `unknown_msg_type`.
  pub parse_next-message_type :
      (p : ParserData) (line : Text)
      → let (counted, emitted, error) = parse_next lib p line in
        let header = (message_header lib 0 (csv_reader line)).1 in
        ((e : Error) × (header ≡ unexpected e) × (emitted ≡ none) × (error ≡ message_decode))
        ⊎ ((h : MessageHeader) × (header ≡ value h)
            × (((type : MessageType) × (h.msg_type ≡ code_of type)
                  × (((m : Message D) × (emitted ≡ some m)
                        × (message_type m ≡ type)
                        × (error ≡ no_error))
                      ⊎ ((emitted ≡ none) × (error ≡ message_decode))))
                ⊎ (((type : MessageType) → h.msg_type ≢ code_of type)
                    × (emitted ≡ none)
                    × (error ≡ unknown_msg_type))))
  unfolding parse_next
  parse_next-message_type p line =
      let (reader, header) = message_header lib 0 (csv_reader line) in
      elim (Expected-cases header) [
        | inr (e, bad) ↦ inl (e, bad, ground (arith, bad), ground (arith, bad))
        | inl (h, ok) ↦ inr (
          h,
          ok,
          elim (Option-cases (type_of h.msg_type)) [
            | inl unknown ↦ inr (
              λ type. type_of-unknown h.msg_type type unknown,
              ground (arith, ok, unknown),
              ground (arith, ok, unknown),
            )
            | inr (type, known) ↦ inl (
              type,
              type_of-code_of h.msg_type type known,
              elim (Expected-cases (decode lib type reader).1) [
                | inr (e, bad) ↦
                    inr (ground (arith, ok, known, bad), ground (arith, ok, known, bad))
                | inl (m, good) ↦ inl (
                  m,
                  ground (arith, ok, known, good),
                  decode-message_type type reader m good,
                  ground (arith, ok, known, good),
                )
              ],
            )
          ],
        )
      ]
