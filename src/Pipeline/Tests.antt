-- ===== src/Pipeline/Tests.antt =====
-- The pipeline on a file of one trade and one order.
use nyse_pillar_market_data.Prelude.{◌+◌, ◌≡◌, refl, text_eq, nat_eq, arith, length}
use nyse_pillar_market_data.Double.{ticks_double, Ticks-IsOrdered}
use nyse_pillar_market_data.Stats.Summary.{IsSummary}
use nyse_pillar_market_data.OrderBook.Book.{new_order_book, get_or_create_book}
use nyse_pillar_market_data.OrderBook.Dispatch.{replay, get_daily_stats}
use nyse_pillar_market_data.Sequence.Metrics.{highest, advances, jumps, repeats, drops}
use nyse_pillar_market_data.Sequence.Counts.{numbers, count_at, lines_of}
use nyse_pillar_market_data.Csv.Decimal.{decimal, decimal-IsBounded}
use nyse_pillar_market_data.NyseParser.Lines.{headers}
use nyse_pillar_market_data.Engine.Lifetime.{
  on_path, leave_loop, owner_close, get_success, get_total, get_egress_count, get_integrity_metrics,
  get_msg_type_counts,
}
use nyse_pillar_market_data.Pipeline.{joined-pipeline}
use nyse_pillar_market_data.Pipeline.Run.{symbol, lines, done, trace}

joined-pipeline_example :
    let ob = replay done.delivered new_order_book in
    let m = get_integrity_metrics done in
    let ss = numbers (headers decimal lines) in
    (get_total done ≡ length lines)
    × (get_success done ≡ length done.delivered)
    × (get_egress_count done ≡ length done.delivered)
    × (m.last_sequence_number ≡ highest 0 ss)
    × (m.gap_events ≡ jumps 0 ss)
    × (m.duplicates ≡ repeats 0 ss)
    × (m.backwards_jumps ≡ drops 0 ss)
    × (m.messages_lost + advances 0 ss ≡ highest 0 ss)
    × (count_at 110 (get_msg_type_counts done) ≡ lines_of 110 (headers decimal lines))
    × IsSummary (get_or_create_book symbol ob).trade_log (get_daily_stats symbol ob)
unfolding owner_close leave_loop
joined-pipeline_example =
    joined-pipeline decimal decimal-IsBounded Ticks-IsOrdered on_path lines symbol 110 (omega arith)
      trace refl refl
