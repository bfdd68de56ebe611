-- ===== src/Examples/Loaders/Tape.antt =====
-- `LoadTrades`: a trades file is a history of ledger calls, and its tape has the statistics of its trades.
use mathlib.Core.Path.{subst}
use mathlib.Core.List.{append-nil, append_assoc}
use nyse_pillar_market_data.Examples.Loaders.Events.{
  TradeEvent, line_events, file_events, trades_of,
}
use nyse_pillar_market_data.Examples.Loaders.Tracking.{
  IsTracking, empty-IsTracking, load_trade_line-IsTracking,
}
use nyse_pillar_market_data.Prelude.{
  ◌++◌, ◌<◌, ◌≡◌, refl, List, [], ◌∷◌, Option, none, some, Text, inl, inr, ◌⊎◌, Option-cases, arith,
  if◌then◌else◌,
}
use nyse_pillar_market_data.Prelude.Word.{u64_mod}
use nyse_pillar_market_data.Double.{Double, IsOrdered}
use nyse_pillar_market_data.Csv.{CsvReader, csv_reader, get_field}
use nyse_pillar_market_data.Csv.Fields.{StdNumbers, value, unexpected}
use nyse_pillar_market_data.Csv.Bounds.{IsBounded, populate_u64-lt}
use nyse_pillar_market_data.Wire.Trades.{wire_trade_cancel}
use nyse_pillar_market_data.TradeLedger.{TradeLedger, empty, get_or_create, get_daily_stats}
use nyse_pillar_market_data.TradeLedger.Calls.{
  Call, records, cancels, adjusts, replaces, step, run, IsValid, empty-IsValid, run-IsValid,
  IsAllowed, AreAllowed, get_daily_stats-run-IsSummary,
}
use nyse_pillar_market_data.Stats.Summary.{IsSummary, IsSummary-defined}
use nyse_pillar_market_data.Examples.Loaders.{load_trade_line, load_trade_lines}
use nyse_pillar_market_data.Wire.Reference.{
  WireTaqTrade, WireTaqTradeCorrection, wire_taq_trade, wire_taq_trade_correction,
}
use nyse_pillar_market_data.Examples.{has_type}

module _ {D : Type 0} (lib : StdNumbers D) (bounded : IsBounded lib) where
  wire_taq_trade-volume :
      (r : CsvReader) (m : WireTaqTrade D)
      → (wire_taq_trade lib 0 r).1 ≡ value m
      → m.volume < u64_mod
  unfolding wire_taq_trade
  wire_taq_trade-volume r m h = grind (arith, populate_u64-lt lib bounded)

  wire_taq_trade_correction-volume :
      (r : CsvReader) (m : WireTaqTradeCorrection D)
      → (wire_taq_trade_correction lib 0 r).1 ≡ value m
      → m.volume < u64_mod
  unfolding wire_taq_trade_correction
  wire_taq_trade_correction-volume r m h = grind (arith, populate_u64-lt lib bounded)

module _ {D : Type 0} ⦃d : Double D⦄ (lib : StdNumbers D) where
  -- The ledger call that a line stands for: a Trade (220), a Trade Cancel (221) or a Trade Correction
  -- (222) that decodes.
  unfoldable pub call_of : Text → Option (Call D)
  call_of line =
      let (reader, msg_type) = get_field 0 (csv_reader line) in
      if has_type (b'2' ∷ b'2' ∷ b'0' ∷ []) msg_type
      then (elim (wire_taq_trade lib 0 reader).1 [
        | unexpected e ↦ none
        | value m ↦ some (records m.header.symbol m.trade_id m.price m.volume)
      ])
      else if has_type (b'2' ∷ b'2' ∷ b'1' ∷ []) msg_type
      then (elim (wire_trade_cancel lib 0 reader).1 [
        | unexpected e ↦ none
        | value m ↦ some (cancels m.header.symbol m.trade_id)
      ])
      else if has_type (b'2' ∷ b'2' ∷ b'2' ∷ []) msg_type
      then (elim (wire_taq_trade_correction lib 0 reader).1 [
        | unexpected e ↦ none
        | value m ↦ some (replaces m.header.symbol m.original_trade_id m.trade_id m.price m.volume)
      ])
      else none

  abbrev pub step_if : TradeLedger D → Option (Call D) → TradeLedger D
  step_if t none = t
  step_if t (some c) = step t c

  load_trade_line-step :
      (line : Text) (t : TradeLedger D) → load_trade_line lib line t ≡ step_if t (call_of line)
  unfolding load_trade_line call_of step
  load_trade_line-step line t = ground arith

  -- The calls of a file.
  unfoldable pub calls_of : List Text → List (Call D)
  calls_of [] = []
  calls_of (l ∷ ls) = elim (call_of l) [ none ↦ calls_of ls | some c ↦ c ∷ calls_of ls ]

  pub load_trade_lines-run :
      (ls : List Text) (t : TradeLedger D) → load_trade_lines lib ls t ≡ run t (calls_of ls)
  unfolding load_trade_lines calls_of run
  load_trade_lines-run [] t = refl
  load_trade_lines-run (l ∷ ls) t = rw (load_trade_line-step l t) (elim (Option-cases (call_of l)) [
    | inl e ↦ rw (e, calls_of) (load_trade_lines-run ls t)
    | inr (c, e) ↦ rw (e, calls_of) (load_trade_lines-run ls (step t c))
  ])

  call_of-IsAllowed :
      IsBounded lib
      → (line : Text) (t : TradeLedger D) (c : Call D) → call_of line ≡ some c
      → IsAllowed t c
  unfolding call_of
  call_of-IsAllowed bounded line t (records symbol id price volume) e =
      grind (arith, wire_taq_trade-volume lib bounded)
  call_of-IsAllowed bounded line t (cancels symbol id) e = tt
  call_of-IsAllowed bounded line t (adjusts symbol id volume) e = absurd (ground arith)
  call_of-IsAllowed bounded line t (replaces symbol old_id new_id price volume) e =
      grind (arith, wire_taq_trade_correction-volume lib bounded)

  calls_of-AreAllowed :
      IsBounded lib → (ls : List Text) (t : TradeLedger D) → AreAllowed t (calls_of ls)
  unfolding calls_of
  calls_of-AreAllowed bounded [] t = tt
  calls_of-AreAllowed bounded (l ∷ ls) t = elim (Option-cases (call_of l)) [
    | inl e ↦ rw (e, calls_of) (calls_of-AreAllowed bounded ls t)
    | inr (c, e) ↦
        rw (e, calls_of)
          (call_of-IsAllowed bounded l t c e, calls_of-AreAllowed bounded ls (step t c))
  ]

  load_trade_line-IsValid :
      IsBounded lib
      → (line : Text) (t : TradeLedger D) → IsValid t
      → IsValid (load_trade_line lib line t)
  unfolding run
  load_trade_line-IsValid bounded line t v =
      rw (load_trade_line-step line t) (elim (Option-cases (call_of line)) [
        | inl e ↦ rw e v
        | inr (c, e) ↦ rw e (run-IsValid t (c ∷ []) (call_of-IsAllowed bounded line t c e, tt) v)
      ])

  load_trade_lines-IsTracking :
      IsBounded lib
      → (ls : List Text) (es : List (TradeEvent D)) (t : TradeLedger D) → IsValid t
      → IsTracking es t
      → IsTracking (es ++ file_events lib ls) (load_trade_lines lib ls t)
  unfolding load_trade_lines file_events
  load_trade_lines-IsTracking bounded [] es t v h = rw (append-nil es) h
  load_trade_lines-IsTracking bounded (l ∷ ls) es t v h =
      rw (← append_assoc es (line_events lib l) (file_events lib ls)) (
        load_trade_lines-IsTracking bounded ls (es ++ line_events lib l) (load_trade_line lib l t)
          (load_trade_line-IsValid bounded l t v) (load_trade_line-IsTracking lib es t l v h))

  -- The log of the tape is the trades of the file.
  tape-log :
      IsBounded lib
      → (lines : List Text) (symbol : Text)
      → (get_or_create symbol (load_trade_lines lib lines empty)).log
        ≡ trades_of symbol (file_events lib lines)
  tape-log bounded lines symbol =
      ((load_trade_lines-IsTracking bounded lines [] empty empty-IsValid empty-IsTracking).each
        symbol).logged

  -- The tape of any trades file has, for every symbol, the first, highest, lowest and last price and the
  -- total volume (modulo 2^64) of the trades that its file does not cancel or correct; and where it has a
  -- first price it has all four, so the comparison, which tests the first, reads no empty price. The file's
  -- lines are read as trades and cancels, a correction as a cancel and a trade, and a trade is cancelled if
  -- a later cancel names its symbol and its id before another trade takes the id over. Prices are ordered,
  -- and `std::from_chars` gives bytes and 64-bit words where they are asked for.
  pub load_trade_lines-IsSummary :
      IsBounded lib
      → IsOrdered D
      → (lines : List Text) (symbol : Text)
      → let stats = get_daily_stats symbol (load_trade_lines lib lines empty) in
        IsSummary (trades_of symbol (file_events lib lines)) stats
        × ((stats.open_price ≡ none)
            ⊎ (((h : D) × (stats.high_price ≡ some h))
                × ((l : D) × (stats.low_price ≡ some l))
                × ((c : D) × (stats.close_price ≡ some c))))
  load_trade_lines-IsSummary bounded laws lines symbol =
      let tape = load_trade_lines lib lines empty in
      let logged : IsSummary (get_or_create symbol tape).log (get_daily_stats symbol tape) =
        rw (load_trade_lines-run lines empty) (
          get_daily_stats-run-IsSummary laws (calls_of lines) symbol
            (calls_of-AreAllowed bounded lines empty)) in
      let summary : IsSummary (trades_of symbol (file_events lib lines))
          (get_daily_stats symbol tape) =
        subst (λ ts. IsSummary ts (get_daily_stats symbol tape)) (tape-log bounded lines symbol)
          logged in
      (
        summary,
        elim (Option-cases (get_daily_stats symbol tape).open_price) [
          | inl e ↦ inl e
          | inr (p, e) ↦ inr (IsSummary-defined _ _ p summary e)
        ],
      )
