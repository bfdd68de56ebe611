-- ===== src/Sequence.antt =====
-- include/schema/parse.hpp: the sequence metrics and the message type counts of `schema::Parser`.
pub mod Metrics
pub mod Counts
mod Tests
use nyse_pillar_market_data.Prelude.{
  ℕ, zero, suc, Bool, List, [], ◌∷◌, ltb, ◌==◌, modify, if◌then◌else◌,
}
use nyse_pillar_market_data.Prelude.Word.{add64, sub64}

pub data ParseError : Type 0 where
  no_error unknown_msg_type message_decode unknown : ParseError

pub record IntegrityMetrics : Type 0 where
  pub last_sequence_number : ℕ
  pub gap_events : ℕ
  pub messages_lost : ℕ
  pub duplicates : ℕ
  pub backwards_jumps : ℕ

pub record ParserData : Type 0 where
  pub line_data : IntegrityMetrics
  pub msg_type_counts : List ℕ

abbrev pub replicate : ℕ → ℕ → List ℕ
replicate zero a = []
replicate (suc n) a = a ∷ replicate n a

abbrev pub no_metrics : IntegrityMetrics
no_metrics = record {
  last_sequence_number = 0;
  gap_events = 0;
  messages_lost = 0;
  duplicates = 0;
  backwards_jumps = 0;
}

abbrev pub new_parser_data : ParserData
new_parser_data = record { line_data = no_metrics; msg_type_counts = replicate 256 0 }

-- The counter that a sequence number raises.
unfoldable pub classify : ℕ → IntegrityMetrics → IntegrityMetrics
classify seq m =
    if seq == m.last_sequence_number
    then record m { duplicates = add64 m.duplicates 1 }
    else (if ltb seq m.last_sequence_number
        then record m { backwards_jumps = add64 m.backwards_jumps 1 }
        else (if ltb (add64 m.last_sequence_number 1) seq
            then record m {
              gap_events = add64 m.gap_events 1;
              messages_lost = add64 m.messages_lost (sub64 (sub64 seq m.last_sequence_number) 1);
            }
            else m))

-- The high-water mark moves up only.
unfoldable pub raise_mark : ℕ → IntegrityMetrics → IntegrityMetrics
raise_mark seq m =
    if ltb m.last_sequence_number seq then record m { last_sequence_number = seq } else m

unfoldable pub record_sequence : ℕ → ℕ → ParserData → ParserData
unfolding classify raise_mark
record_sequence msg_type seq p = record {
  line_data = raise_mark seq (classify seq p.line_data);
  msg_type_counts = modify p.msg_type_counts msg_type (λ n. add64 n 1);
}
