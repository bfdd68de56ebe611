-- ===== src/Examples/StockSummary.antt =====
-- examples/stock-summary/main.cpp: the comparison of the tape with the reference, symbol by symbol.
-- What it prints is left out, but for the number of examples that it prints.
pub mod Counts
pub mod Main
mod Tests
use nyse_pillar_market_data.Prelude.{
  ℕ, Bool, true, false, not, ◌&&◌, List, [], ◌∷◌, Option, none, some, Text, text_eq, ltb, ◌==◌,
  if◌then◌else◌,
}
use nyse_pillar_market_data.Prelude.Word.{add64}
use nyse_pillar_market_data.Double.{Double}
use nyse_pillar_market_data.Map.{Map, find}
use nyse_pillar_market_data.TradeLedger.{TradeLedger, get_daily_stats, get_symbols}
use nyse_pillar_market_data.Examples.Counting.{add_bool}
use nyse_pillar_market_data.Examples.{StdMath, nearly_equal}
use nyse_pillar_market_data.Examples.Loaders.{ReferenceSummary}

pub record Tally : Type 0 where
  pub compared : ℕ
  pub open_match : ℕ
  pub high_match : ℕ
  pub low_match : ℕ
  pub close_match : ℕ
  pub volume_match : ℕ
  pub volume_sum : ℕ
  pub ref_volume_sum : ℕ
  pub volume_examples : ℕ

abbrev pub no_tally : Tally
no_tally = record {
  compared = 0;
  open_match = 0;
  high_match = 0;
  low_match = 0;
  close_match = 0;
  volume_match = 0;
  volume_sum = 0;
  ref_volume_sum = 0;
  volume_examples = 0;
}

module _ {D : Type 0} ⦃d : Double D⦄ (math : StdMath D) where
  -- `NearlyEqual(*field, x)`; an empty field, undefined in the source, reads as a mismatch.
  abbrev pub field_matches : Option D → D → Bool
  field_matches none x = false
  field_matches (some p) x = nearly_equal math p x

  module _ (reference : Map Text (ReferenceSummary D)) (tape : TradeLedger D) where
    unfoldable pub compare_symbol : Text → Tally → Tally
    compare_symbol symbol t = elim (find symbol reference) [
      | none ↦ t
      | some ref ↦
          let stats = get_daily_stats symbol tape in
          let volume_matches = stats.total_volume == ref.total_volume in
          elim stats.open_price [
            | none ↦ t
            | some open_price ↦ record {
              compared = add64 t.compared 1;
              open_match = add_bool t.open_match (nearly_equal math open_price ref.open_price);
              high_match = add_bool t.high_match (field_matches stats.high_price ref.high_price);
              low_match = add_bool t.low_match (field_matches stats.low_price ref.low_price);
              close_match =
                  add_bool t.close_match (field_matches stats.close_price ref.close_price);
              volume_match = add_bool t.volume_match volume_matches;
              volume_sum = add64 t.volume_sum stats.total_volume;
              ref_volume_sum = add64 t.ref_volume_sum ref.total_volume;
              volume_examples =
                  if not volume_matches && ltb t.volume_examples 5
                  then add64 t.volume_examples 1
                  else t.volume_examples;
            }
          ]
    ]

    unfoldable pub compare_symbols : List Text → Tally → Tally
    compare_symbols [] t = t
    compare_symbols (s ∷ ss) t = compare_symbols ss (compare_symbol s t)

    unfoldable pub compare_tape : Tally
    unfolding get_symbols
    compare_tape = compare_symbols (get_symbols tape) no_tally
