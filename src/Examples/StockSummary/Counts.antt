-- ===== src/Examples/StockSummary/Counts.antt =====
-- The counters of the comparison are numbers of symbols.
use nyse_pillar_market_data.Prelude.{
  if◌then◌else◌, refl, ◌+◌, ◌<◌, ◌≤◌, ◌≡◌, Bool, true, false, List, [], ◌∷◌, none, some, Text,
  text_eq, arith, ◌==◌, length,
}
use nyse_pillar_market_data.Prelude.Word.{u64_mod}
use nyse_pillar_market_data.Double.{Double}
use nyse_pillar_market_data.Map.{Map, find}
use nyse_pillar_market_data.Stats.{DailyStats}
use nyse_pillar_market_data.TradeLedger.{TradeLedger, get_daily_stats, get_symbols}
use nyse_pillar_market_data.Examples.Counting.{
  count_if, count_if-le, count_if-length, fold, fold-count_if, fold-le,
}
use nyse_pillar_market_data.Examples.{StdMath}
use nyse_pillar_market_data.Examples.Loaders.{ReferenceSummary}
use nyse_pillar_market_data.Examples.StockSummary.{
  Tally, no_tally, field_matches, compare_symbol, compare_symbols, compare_tape,
}

module _ {D : Type 0} ⦃d : Double D⦄ (math : StdMath D) (reference : Map Text (ReferenceSummary D))
    (tape : TradeLedger D) where
  -- A test on the statistics of a symbol that was traded and has an entry in the reference.
  abbrev pub passes : (DailyStats D → ReferenceSummary D → Bool) → Text → Bool
  passes test symbol = elim (find symbol reference) [
    | none ↦ false
    | some ref ↦
        let stats = get_daily_stats symbol tape in
        elim stats.open_price [ none ↦ false | some p ↦ test stats ref ]
  ]

  abbrev pub is_compared : Text → Bool
  is_compared = passes (λ stats ref. true)

  abbrev pub open_test : DailyStats D → ReferenceSummary D → Bool
  open_test stats ref = field_matches math stats.open_price ref.open_price

  abbrev pub open_matches : Text → Bool
  open_matches = passes open_test

  abbrev pub high_test : DailyStats D → ReferenceSummary D → Bool
  high_test stats ref = field_matches math stats.high_price ref.high_price

  abbrev pub high_matches : Text → Bool
  high_matches = passes high_test

  abbrev pub low_test : DailyStats D → ReferenceSummary D → Bool
  low_test stats ref = field_matches math stats.low_price ref.low_price

  abbrev pub low_matches : Text → Bool
  low_matches = passes low_test

  abbrev pub close_test : DailyStats D → ReferenceSummary D → Bool
  close_test stats ref = field_matches math stats.close_price ref.close_price

  abbrev pub close_matches : Text → Bool
  close_matches = passes close_test

  abbrev pub volume_test : DailyStats D → ReferenceSummary D → Bool
  volume_test stats ref = stats.total_volume == ref.total_volume

  abbrev pub volume_matches : Text → Bool
  volume_matches = passes volume_test

  passes-is_compared :
      (test : DailyStats D → ReferenceSummary D → Bool) (s : Text)
      → passes test s ≡ true
      → is_compared s ≡ true
  passes-is_compared test s h = ground arith

  abbrev round : Text → Tally → Tally
  round = compare_symbol math reference tape

  compare_symbols-fold :
      (ss : List Text) (t : Tally) → compare_symbols math reference tape ss t ≡ fold round ss t
  unfolding compare_symbols
  compare_symbols-fold [] t = refl
  compare_symbols-fold (s ∷ ss) t = compare_symbols-fold ss (round s t)

  -- The counters of a round.
  round-lem :
      (s : Text) (t : Tally)
      → let t' = round s t in
        (t.compared + 1 < u64_mod → t'.compared ≡ t.compared + (if is_compared s then 1 else 0))
        × (t.open_match + 1 < u64_mod
            → t'.open_match ≡ t.open_match + (if open_matches s then 1 else 0))
        × (t.high_match + 1 < u64_mod
            → t'.high_match ≡ t.high_match + (if high_matches s then 1 else 0))
        × (t.low_match + 1 < u64_mod
            → t'.low_match ≡ t.low_match + (if low_matches s then 1 else 0))
        × (t.close_match + 1 < u64_mod
            → t'.close_match ≡ t.close_match + (if close_matches s then 1 else 0))
        × (t.volume_match + 1 < u64_mod
            → t'.volume_match ≡ t.volume_match + (if volume_matches s then 1 else 0))
        × (t.volume_examples ≤ 5 → t'.volume_examples ≤ 5)
  unfolding compare_symbol
  round-lem s t = (
    λ h. ground arith,
    λ h. ground arith,
    λ h. ground arith,
    λ h. ground arith,
    λ h. ground arith,
    λ h. ground arith,
    λ h. ground arith,
  )

  at_most :
      (test : DailyStats D → ReferenceSummary D → Bool)
      → count_if (passes test) (get_symbols tape) ≤ count_if is_compared (get_symbols tape)
  at_most test = count_if-le (passes test) is_compared (get_symbols tape) (passes-is_compared test)

  -- The comparison counts the traded symbols with an entry in the reference, and among them those whose
  -- open, high, low and close price is nearly that of the reference and whose volume is that of the
  -- reference; each of these is at most the number compared, and at most five mismatches are printed. The
  -- symbols are fewer than 2^64.
  pub compare_tape-counts :
      length (get_symbols tape) < u64_mod
      → let t = compare_tape math reference tape in
        let symbols = get_symbols tape in
        ((t.compared ≡ count_if is_compared symbols) × (t.compared ≤ length symbols))
        × ((t.open_match ≡ count_if open_matches symbols) × (t.open_match ≤ t.compared))
        × ((t.high_match ≡ count_if high_matches symbols) × (t.high_match ≤ t.compared))
        × ((t.low_match ≡ count_if low_matches symbols) × (t.low_match ≤ t.compared))
        × ((t.close_match ≡ count_if close_matches symbols) × (t.close_match ≤ t.compared))
        × ((t.volume_match ≡ count_if volume_matches symbols) × (t.volume_match ≤ t.compared))
        × (t.volume_examples ≤ 5)
  unfolding compare_tape
  compare_tape-counts few =
      let symbols = get_symbols tape in
      let all = count_if-length is_compared symbols in
      let compared =
        fold-count_if round (λ t. t.compared) is_compared (λ s t. (round-lem s t).0) symbols
          no_tally (omega arith) in
      let open_match =
        fold-count_if round (λ t. t.open_match) open_matches (λ s t. (round-lem s t).1) symbols
          no_tally (omega arith) in
      let high_match =
        fold-count_if round (λ t. t.high_match) high_matches (λ s t. (round-lem s t).2) symbols
          no_tally (omega arith) in
      let low_match =
        fold-count_if round (λ t. t.low_match) low_matches (λ s t. (round-lem s t).3) symbols
          no_tally (omega arith) in
      let close_match =
        fold-count_if round (λ t. t.close_match) close_matches (λ s t. (round-lem s t).4) symbols
          no_tally (omega arith) in
      let volume_match =
        fold-count_if round (λ t. t.volume_match) volume_matches (λ s t. (round-lem s t).5) symbols
          no_tally (omega arith) in
      let examples =
        fold-le round (λ t. t.volume_examples) 5 (λ s t. (round-lem s t).6) symbols no_tally
          (omega arith) in
      rw (compare_symbols-fold symbols no_tally) (
        (omega (arith, compared), omega (arith, compared, all)),
        (omega (arith, open_match), omega (arith, compared, open_match, at_most open_test)),
        (omega (arith, high_match), omega (arith, compared, high_match, at_most high_test)),
        (omega (arith, low_match), omega (arith, compared, low_match, at_most low_test)),
        (omega (arith, close_match), omega (arith, compared, close_match, at_most close_test)),
        (omega (arith, volume_match), omega (arith, compared, volume_match, at_most volume_test)),
        examples,
      )
