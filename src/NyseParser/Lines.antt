-- ===== src/NyseParser/Lines.antt =====
-- The counters after the lines of a channel: those of the headers that decode.
use nyse_pillar_market_data.Prelude.{
  ◌+◌, ◌<◌, ◌≡◌, refl, List, [], ◌∷◌, All, Text, arith, length, inl, inr,
}
use nyse_pillar_market_data.Prelude.Word.{u64_mod}
use nyse_pillar_market_data.Sequence.{ParserData, new_parser_data, record_sequence}
use nyse_pillar_market_data.Sequence.Metrics.{highest, advances, jumps, repeats, drops}
use nyse_pillar_market_data.Sequence.Counts.{Header, run_lines, numbers, run_lines-integrity}
use nyse_pillar_market_data.Csv.{csv_reader}
use nyse_pillar_market_data.Csv.Fields.{StdNumbers, value, unexpected}
use nyse_pillar_market_data.Wire.{message_header}
use nyse_pillar_market_data.NyseParser.{parse_next}
use nyse_pillar_market_data.NyseParser.Emission.{Expected-cases}

module _ {D : Type 0} (lib : StdNumbers D) where
  -- The parser after the lines of a file.
  unfoldable pub parse_lines : List Text → ParserData → ParserData
  parse_lines [] p = p
  parse_lines (l ∷ ls) p = parse_lines ls (parse_next lib p l).0

  -- The headers of the lines whose header decodes.
  unfoldable pub headers : List Text → List Header
  headers [] = []
  headers (l ∷ ls) = elim (message_header lib 0 (csv_reader l)).1 [
    | unexpected e ↦ headers ls
    | value h ↦ record { msg_type = h.msg_type; sequence_number = h.sequence_number } ∷ headers ls
  ]

  -- After the lines of a file, the state of the parser is what `RecordSequence` makes of the headers that
  -- decode, one after the other: a line counts once its header decodes, whatever becomes of the rest.
  pub parse_lines-eq-run_lines :
      (ls : List Text) (p : ParserData) → parse_lines ls p ≡ run_lines (headers ls) p
  unfolding parse_lines headers run_lines parse_next
  parse_lines-eq-run_lines [] p = refl
  parse_lines-eq-run_lines (l ∷ ls) p =
      elim (Expected-cases (message_header lib 0 (csv_reader l)).1) [
        | inr (e, bad) ↦ ground (arith, bad, parse_lines-eq-run_lines ls p)
        | inl (h, ok) ↦
            let counted = record_sequence h.msg_type h.sequence_number p in
            ground (arith, ok, parse_lines-eq-run_lines ls counted)
      ]

  -- After the lines of a file, from a new parser, the metrics are those of the sequence numbers of the
  -- lines whose header decodes, whether their type is known and the rest of the line decodes or not: the
  -- mark is the highest number, and gap events, duplicates and backwards jumps count the lines that leave
  -- numbers out above the mark, repeat it, and are below it. The numbers are 64-bit words, and the lines
  -- fewer than 2^64.
  pub parse_lines-integrity :
      (ls : List Text)
      → All (λ s. s < u64_mod) (numbers (headers ls))
      → length (headers ls) < u64_mod
      → let m = (parse_lines ls new_parser_data).line_data in
        let ss = numbers (headers ls) in
        (m.last_sequence_number ≡ highest 0 ss)
        × (m.gap_events ≡ jumps 0 ss)
        × (m.duplicates ≡ repeats 0 ss)
        × (m.backwards_jumps ≡ drops 0 ss)
        × (m.messages_lost + advances 0 ss ≡ highest 0 ss)
  parse_lines-integrity ls small few =
      rw (parse_lines-eq-run_lines ls new_parser_data) (run_lines-integrity (headers ls) small few)
