-- ===== src/Sequence/Tests.antt =====
-- The integrity metrics of a concrete channel.
use nyse_pillar_market_data.Prelude.{◌+◌, ◌≡◌, refl, List, [], ◌∷◌, arith}
use nyse_pillar_market_data.Sequence.{new_parser_data, record_sequence, classify, raise_mark}
use nyse_pillar_market_data.Sequence.Metrics.{highest, advances, jumps, repeats, drops}
use nyse_pillar_market_data.Sequence.Counts.{
  Header, run_lines, numbers, count_at, run_lines-integrity, run_lines-msg_type_counts,
}

-- In order, a gap of two, a repetition, and a number of the gap late.
abbrev lines : List Header
lines =
    record { msg_type = 3; sequence_number = 1 }
    ∷ record { msg_type = 100; sequence_number = 2 }
    ∷ record { msg_type = 100; sequence_number = 5 }
    ∷ record { msg_type = 100; sequence_number = 5 }
    ∷ record { msg_type = 102; sequence_number = 4 }
    ∷ []

lines_metrics : (run_lines lines new_parser_data).line_data ≡ record {
  last_sequence_number = 5;
  gap_events = 1;
  messages_lost = 2;
  duplicates = 1;
  backwards_jumps = 1;
}
unfolding run_lines record_sequence classify raise_mark
lines_metrics = refl

run_lines-integrity_example :
    let m = (run_lines lines new_parser_data).line_data in
    let ss = numbers lines in
    (m.last_sequence_number ≡ highest 0 ss)
    × (m.gap_events ≡ jumps 0 ss)
    × (m.duplicates ≡ repeats 0 ss)
    × (m.backwards_jumps ≡ drops 0 ss)
    × (m.messages_lost + advances 0 ss ≡ highest 0 ss)
run_lines-integrity_example =
    run_lines-integrity lines
      (omega arith, (omega arith, (omega arith, (omega arith, (omega arith, tt))))) (omega arith)

run_lines-msg_type_counts_example :
    count_at 100 (run_lines lines new_parser_data).msg_type_counts ≡ 3
run_lines-msg_type_counts_example =
    run_lines-msg_type_counts lines 100
      (omega arith, (omega arith, (omega arith, (omega arith, (omega arith, tt))))) (omega arith)
