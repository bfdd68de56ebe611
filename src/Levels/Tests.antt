-- ===== src/Levels/Tests.antt =====
-- The levels of one side at concrete prices.
use nyse_pillar_market_data.Prelude.{◌≡◌, refl, [], ◌∷◌, some, arith}
use nyse_pillar_market_data.Double.{Ticks, ticks_double, Ticks-IsOrdered, less}
use nyse_pillar_market_data.Levels.{Levels, find_level, add_volume, take_volume}
use nyse_pillar_market_data.Levels.RoundTrip.{take_volume-add_volume}

abbrev asks : Levels Ticks
asks = (100, 5) ∷ (102, 7) ∷ []

asks_added : add_volume less 101 4 asks ≡ (100, 5) ∷ (101, 4) ∷ (102, 7) ∷ []
unfolding add_volume
asks_added = refl

take_volume-add_volume_example : take_volume less 101 4 (add_volume less 101 4 asks) ≡ some asks
unfolding find_level
take_volume-add_volume_example =
    take_volume-add_volume less Ticks-IsOrdered 101 4 asks ((refl, tt), (tt, tt))
      (omega arith, (omega arith, tt)) (omega arith)
