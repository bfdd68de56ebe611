-- ===== src/Sequence/Counts.antt =====
-- `RecordSequence` over the lines of a channel: the metrics, and the count of each message type.
use nyse_pillar_market_data.Prelude.{
  ℕ, zero, suc, ◌+◌, ◌<◌, ◌≡◌, refl, List, [], ◌∷◌, All, none, some, arith, ◌==◌, length, get_elem?,
  modify, length-modify, if◌then◌else◌,
}
use nyse_pillar_market_data.Prelude.Word.{u64_mod, add64}
use nyse_pillar_market_data.Sequence.{ParserData, new_parser_data, replicate, record_sequence}
use nyse_pillar_market_data.Sequence.Metrics.{
  run_metrics, highest, advances, jumps, repeats, drops, run_metrics-IsCount,
}

-- The header of a line: its message type and its sequence number.
pub record Header : Type 0 where
  pub msg_type : ℕ
  pub sequence_number : ℕ

unfoldable pub run_lines : List Header → ParserData → ParserData
run_lines [] p = p
run_lines (l ∷ ls) p = run_lines ls (record_sequence l.msg_type l.sequence_number p)

abbrev pub numbers : List Header → List ℕ
numbers [] = []
numbers (l ∷ ls) = l.sequence_number ∷ numbers ls

-- `_msgTypeCounts[t]`.
abbrev pub count_at : ℕ → List ℕ → ℕ
count_at t counts = elim (get_elem? counts t) [ none ↦ 0 | some n ↦ n ]

-- How many lines have a message type.
abbrev pub lines_of : ℕ → List Header → ℕ
lines_of t [] = 0
lines_of t (l ∷ ls) = (if l.msg_type == t then 1 else 0) + lines_of t ls

run_lines-line_data :
    (ls : List Header) (p : ParserData)
    → (run_lines ls p).line_data ≡ run_metrics (numbers ls) p.line_data
unfolding run_lines run_metrics record_sequence
run_lines-line_data [] p = refl
run_lines-line_data (l ∷ ls) p =
    run_lines-line_data ls (record_sequence l.msg_type l.sequence_number p)

length-numbers : (ls : List Header) → length (numbers ls) ≡ length ls
length-numbers [] = refl
length-numbers (l ∷ ls) = omega (arith, length-numbers ls)

-- For the lines of a channel, fewer than 2^64 and with 64-bit sequence numbers, from a new parser:
-- the mark is the highest number; gap events, duplicates and backwards jumps count the lines that
-- leave numbers out above the mark, repeat it, and are below it; and the messages lost with the lines
-- that raised the mark make up the mark, so every number up to it is counted once.
pub run_lines-integrity :
    (ls : List Header)
    → All (λ s. s < u64_mod) (numbers ls)
    → length ls < u64_mod
    → let m = (run_lines ls new_parser_data).line_data in
      let ss = numbers ls in
      (m.last_sequence_number ≡ highest 0 ss)
      × (m.gap_events ≡ jumps 0 ss)
      × (m.duplicates ≡ repeats 0 ss)
      × (m.backwards_jumps ≡ drops 0 ss)
      × (m.messages_lost + advances 0 ss ≡ highest 0 ss)
run_lines-integrity ls h n =
    rw (run_lines-line_data ls new_parser_data)
      (run_metrics-IsCount (numbers ls) h (omega (arith, length-numbers ls)))

count_at-modify :
    (counts : List ℕ) (i t : ℕ)
    → count_at t counts + 1 < u64_mod
    → i < length counts
    → count_at t (modify counts i (λ n. add64 n 1)) ≡ count_at t counts + (if i == t then 1 else 0)
count_at-modify [] i t r h = elim h [ ]
count_at-modify (c ∷ cs) zero zero r h = ground arith
count_at-modify (c ∷ cs) zero (suc t) r h = ground arith
count_at-modify (c ∷ cs) (suc i) zero r h = ground arith
count_at-modify (c ∷ cs) (suc i) (suc t) r h = ground (arith, count_at-modify cs i t r)

run_lines-counts :
    (ls : List Header) (p : ParserData) (t : ℕ)
    → All (λ l. l.msg_type < length p.msg_type_counts) ls
    → count_at t p.msg_type_counts + length ls < u64_mod
    → count_at t (run_lines ls p).msg_type_counts ≡ count_at t p.msg_type_counts + lines_of t ls
unfolding run_lines record_sequence
run_lines-counts [] p t h r = omega arith
run_lines-counts (l ∷ ls) p t h r =
    let one = count_at-modify p.msg_type_counts l.msg_type t (omega arith) h.0 in
    let same = length-modify p.msg_type_counts l.msg_type (λ n. add64 n 1) in
    let rest =
      run_lines-counts ls (record_sequence l.msg_type l.sequence_number p) t (rw same h.1)
        (ground (arith, one)) in
    omega (arith, one, rest)

count_at-replicate : (n t : ℕ) → count_at t (replicate n 0) ≡ 0
count_at-replicate zero t = refl
count_at-replicate (suc n) zero = refl
count_at-replicate (suc n) (suc t) = count_at-replicate n t

-- `GetMsgTypeCounts` counts, for each type, the lines of that type, known or not: for fewer than
-- 2^64 lines, whose types are bytes, from a new parser.
pub run_lines-msg_type_counts :
    (ls : List Header) (t : ℕ)
    → All (λ l. l.msg_type < 256) ls
    → length ls < u64_mod
    → count_at t (run_lines ls new_parser_data).msg_type_counts ≡ lines_of t ls
run_lines-msg_type_counts ls t h r =
    let none_yet = count_at-replicate 256 t in
    omega (arith, none_yet, run_lines-counts ls new_parser_data t h (omega (arith, none_yet)))
