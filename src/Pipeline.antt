-- ===== src/Pipeline.antt =====
-- The engine with the parser of the exchange and an order book behind its callback, as the programs of
-- examples/ put them together.
pub mod Run
mod Tests
use nyse_pillar_market_data.Prelude.{
  ℕ, ◌+◌, ◌<◌, ◌≤◌, ◌%◌, ◌≡◌, refl, sym, ap, ◌∙◌, List, [], ◌∷◌, ◌++◌, Option, none, some, Text,
  All, arith, length, length-append, inl, inr,
}
use nyse_pillar_market_data.Prelude.Word.{u64_mod}
use nyse_pillar_market_data.Double.{Double, IsOrdered}
use nyse_pillar_market_data.Message.{Message}
use nyse_pillar_market_data.Stats.Summary.{IsSummary}
use nyse_pillar_market_data.OrderBook.Book.{new_order_book, get_or_create_book}
use nyse_pillar_market_data.OrderBook.Dispatch.{replay, get_daily_stats}
use nyse_pillar_market_data.OrderBook.Statistics.{get_daily_stats-replay-IsSummary}
use nyse_pillar_market_data.Sequence.{ParserData, new_parser_data}
use nyse_pillar_market_data.Sequence.Metrics.{highest, advances, jumps, repeats, drops}
use nyse_pillar_market_data.Sequence.Counts.{numbers, count_at, lines_of, run_lines-msg_type_counts}
use nyse_pillar_market_data.Csv.Fields.{StdNumbers}
use nyse_pillar_market_data.Csv.Bounds.{IsBounded}
use nyse_pillar_market_data.Engine.{LineParser}
use nyse_pillar_market_data.Engine.Exchange.{to_list}
use nyse_pillar_market_data.Engine.Steps.Running.{messages}
use nyse_pillar_market_data.Engine.Lifetime.{
  joined, ended, failed, Construction, LifetimeState, new_engine, Reach, get_success, get_total,
  get_egress_count, get_integrity_metrics, get_msg_type_counts,
}
use nyse_pillar_market_data.Engine.Lifetime.Conserved.{parse_all}
use nyse_pillar_market_data.Engine.Lifetime.Outcome.{joined-outcome, joined-parsed}
use nyse_pillar_market_data.NyseParser.Emission.{nyse_parser}
use nyse_pillar_market_data.NyseParser.Lines.{
  parse_lines, headers, parse_lines-integrity, parse_lines-eq-run_lines,
}
use nyse_pillar_market_data.NyseParser.Bounds.{messages-AreSmall, headers-bounded}

length-messages :
    {A L P : Type 0} (lp : LineParser A L P) (p : P) (ls : List L)
    → length (messages lp p ls) ≤ length ls
unfolding messages
length-messages lp p [] = omega arith
length-messages lp p (l ∷ ls) =
    let rest = length-messages lp (lp.parse_next p l).0 ls in
    let count =
      length-append (to_list (lp.parse_next p l).1) (messages lp (lp.parse_next p l).0 ls) in
    ground arith

module _ {D : Type 0} (lib : StdNumbers D) where
  parse_all-eq-parse_lines :
      (ls : List Text) (p : ParserData) → parse_all (nyse_parser lib) p ls ≡ parse_lines lib ls p
  unfolding parse_all parse_lines
  parse_all-eq-parse_lines [] p = refl
  parse_all-eq-parse_lines (l ∷ ls) p = parse_all-eq-parse_lines ls _

module _ {D : Type 0} ⦃d : Double D⦄ (lib : StdNumbers D) where
  -- After `Join` on a file that opened, of fewer than 2^64 lines and whatever is in them, and whatever the
  -- interleaving: the total is the number of lines; the successes, the egress count and the messages that the
  -- callback took are one number; the integrity metrics are those of the sequence numbers of the lines whose
  -- header decodes, and the type counts the numbers of these lines of each type; and in the order book that
  -- the messages build, the statistics of every symbol are the first, highest, lowest and last price and the
  -- total volume (modulo 2^64) of the trades in its log that are not cancelled. Prices are ordered, and
  -- `std::from_chars` gives bytes and 64-bit words where they are asked for.
  pub joined-pipeline :
      IsBounded lib
      → IsOrdered D
      → (c : Construction) (lines : List Text) (symbol : Text) (t : ℕ) → length lines < u64_mod
      → {s : LifetimeState (Message D) Text ParserData}
      → Reach (nyse_parser lib) (new_engine c lines new_parser_data) s
      → s.owner ≡ joined
      → s.phase ≡ ended
      → let ob = replay s.delivered new_order_book in
        let m = get_integrity_metrics s in
        let ss = numbers (headers lib lines) in
        (get_total s ≡ length lines)
        × (get_success s ≡ length s.delivered)
        × (get_egress_count s ≡ length s.delivered)
        × (m.last_sequence_number ≡ highest 0 ss)
        × (m.gap_events ≡ jumps 0 ss)
        × (m.duplicates ≡ repeats 0 ss)
        × (m.backwards_jumps ≡ drops 0 ss)
        × (m.messages_lost + advances 0 ss ≡ highest 0 ss)
        × (count_at t (get_msg_type_counts s) ≡ lines_of t (headers lib lines))
        × IsSummary (get_or_create_book symbol ob).trade_log (get_daily_stats symbol ob)
  joined-pipeline bounded laws c lines symbol t few {s} reach j e =
      let lp = nyse_parser lib in
      elim (joined-outcome lp c lines new_parser_data reach j) [
        | inr (f, taken, count, successes, total) ↦ absurd (ground arith)
        | inl (opened, taken, count, successes, total) ↦
            let at_most = length-messages lp new_parser_data lines in
            let same = ap length taken in
            let small = messages-AreSmall lib bounded new_parser_data lines in
            let stats =
              get_daily_stats-replay-IsSummary laws (messages lp new_parser_data lines) symbol
                small in
            let (words, types, headers_few) = headers-bounded lib bounded lines in
            let parsed =
              joined-parsed lp c lines new_parser_data reach j e
              ∙ parse_all-eq-parse_lines lib lines new_parser_data in
            let counts : count_at t (parse_lines lib lines new_parser_data).msg_type_counts
                ≡ lines_of t (headers lib lines) =
              rw (parse_lines-eq-run_lines lib lines new_parser_data) (
                run_lines-msg_type_counts (headers lib lines) t types
                  (omega (arith, headers_few, few))) in
            let integrity =
              parse_lines-integrity lib lines words (omega (arith, headers_few, few)) in
            (
              omega (arith, total, few),
              omega (arith, successes, same, at_most, few),
              omega (arith, count, same, at_most, few),
              rw parsed integrity.0,
              rw parsed integrity.1,
              rw parsed integrity.2,
              rw parsed integrity.3,
              rw parsed integrity.4,
              rw parsed counts,
              rw taken stats,
            )
      ]
