-- ===== src/NyseParser/Tests.antt =====
-- Concrete lines.
use nyse_pillar_market_data.Prelude.{
  none, ◌≢◌, ◌⊎◌, ◌+◌, ◌<◌, ◌≡◌, refl, List, [], ◌∷◌, some, Text, All, arith, length, nat_eq,
}
use nyse_pillar_market_data.Prelude.Word.{u64_mod}
use nyse_pillar_market_data.Double.{Ticks}
use nyse_pillar_market_data.Map.{find}
use nyse_pillar_market_data.Message.{Message, MessageType, message_type}
use nyse_pillar_market_data.Sequence.{
  no_error, message_decode, unknown_msg_type, new_parser_data, record_sequence, classify,
  raise_mark,
}
use nyse_pillar_market_data.Sequence.Metrics.{highest, advances, jumps, repeats, drops}
use nyse_pillar_market_data.Sequence.Counts.{numbers, run_lines}
use nyse_pillar_market_data.Csv.{csv_reader, get_field, scan, field_start}
use nyse_pillar_market_data.Csv.Fields.{
  value, unexpected, Error, parse_std_type, parse_source_time, populate_string, populate_char,
  populate_with, populate_optional,
}
use nyse_pillar_market_data.Csv.Decimal.{decimal}
use nyse_pillar_market_data.Wire.{MessageHeader, message_header, per_symbol_header}
use nyse_pillar_market_data.Wire.Orders.{wire_add_order}
use nyse_pillar_market_data.NyseParser.{type_of, decode, parse_next}
use nyse_pillar_market_data.NyseParser.Emission.{code_of, parse_next-message_type}
use nyse_pillar_market_data.NyseParser.Lines.{
  parse_lines, headers, parse_lines-eq-run_lines, parse_lines-integrity,
}

-- "100,5,01:00:00.000000007,A,7,1,90,50,B,F,"
abbrev add_line : Text
add_line =
    b'1' ∷ b'0' ∷ b'0' ∷ b',' ∷ b'5' ∷ b',' ∷ b'0' ∷ b'1' ∷ b':' ∷ b'0' ∷ b'0' ∷ b':' ∷ b'0' ∷ b'0'
    ∷ b'.' ∷ b'0' ∷ b'0' ∷ b'0' ∷ b'0' ∷ b'0' ∷ b'0' ∷ b'0' ∷ b'0' ∷ b'7' ∷ b',' ∷ b'A' ∷ b','
    ∷ b'7' ∷ b',' ∷ b'1' ∷ b',' ∷ b'9' ∷ b'0' ∷ b',' ∷ b'5' ∷ b'0' ∷ b',' ∷ b'B' ∷ b',' ∷ b'F'
    ∷ b',' ∷ []

abbrev added : Message Ticks
added = Message.add_order (record {
  nanos_since_midnight = 3600000000007;
  symbol = b'A' ∷ [];
  symbol_seq_num = 7;
  order_id = 1;
  price = 90;
  volume = 50;
  side = b'B';
  firm_id = b'F' ∷ [];
})

add_line_emits : (parse_next decimal new_parser_data add_line).1 ≡ some added
unfolding parse_next message_header type_of find decode wire_add_order per_symbol_header get_field
    scan field_start parse_std_type parse_source_time populate_string populate_char populate_with
    populate_optional record_sequence classify raise_mark
add_line_emits = refl

parse_next-message_type_example :
    let (counted, emitted, error) = parse_next decimal new_parser_data add_line in
    let header = (message_header decimal 0 (csv_reader add_line)).1 in
    ((e : Error) × (header ≡ unexpected e) × (emitted ≡ none) × (error ≡ message_decode))
    ⊎ ((h : MessageHeader) × (header ≡ value h)
        × (((type : MessageType) × (h.msg_type ≡ code_of type)
              × (((m : Message Ticks) × (emitted ≡ some m)
                    × (message_type m ≡ type)
                    × (error ≡ no_error))
                  ⊎ ((emitted ≡ none) × (error ≡ message_decode))))
            ⊎ (((type : MessageType) → h.msg_type ≢ code_of type)
                × (emitted ≡ none)
                × (error ≡ unknown_msg_type))))
parse_next-message_type_example = parse_next-message_type decimal new_parser_data add_line

-- "1,b", "3,2" and "7,9": a header that does not decode, a line that ends early, and an unknown type.
abbrev lines : List Text
lines = (b'1' ∷ b',' ∷ b'b' ∷ []) ∷ (b'3' ∷ b',' ∷ b'2' ∷ []) ∷ (b'7' ∷ b',' ∷ b'9' ∷ []) ∷ []

lines-headers : numbers (headers decimal lines) ≡ 2 ∷ 9 ∷ []
unfolding headers message_header get_field scan field_start parse_std_type populate_string
    populate_with
lines-headers = refl

lines_small :
    All (λ s. s < u64_mod) (numbers (headers decimal lines))
    × (length (headers decimal lines) < u64_mod)
unfolding headers message_header get_field scan field_start parse_std_type populate_string
    populate_with
lines_small = ((omega arith, (omega arith, tt)), omega arith)

parse_lines-integrity_example :
    let m = (parse_lines decimal lines new_parser_data).line_data in
    let ss = numbers (headers decimal lines) in
    (m.last_sequence_number ≡ highest 0 ss)
    × (m.gap_events ≡ jumps 0 ss)
    × (m.duplicates ≡ repeats 0 ss)
    × (m.backwards_jumps ≡ drops 0 ss)
    × (m.messages_lost + advances 0 ss ≡ highest 0 ss)
parse_lines-integrity_example = parse_lines-integrity decimal lines lines_small.0 lines_small.1

parse_lines-eq-run_lines_example :
    parse_lines decimal lines new_parser_data ≡ run_lines (headers decimal lines) new_parser_data
parse_lines-eq-run_lines_example = parse_lines-eq-run_lines decimal lines new_parser_data
