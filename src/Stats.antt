-- ===== src/Stats.antt =====
-- `DailyStats` and the trade records that it is derived from, include/model/trade_ledger.hpp, with
-- the two loops of src/model/trade_ledger.cpp that derive it.
pub mod Summary
pub mod Edit
pub mod Cancelled
use nyse_pillar_market_data.Prelude.{
  ℕ, Bool, false, List, [], ◌∷◌, Option, none, some, get_elem?, if◌then◌else◌,
}
use nyse_pillar_market_data.Prelude.Word.{add64}
use nyse_pillar_market_data.Prelude.Int.{◌+ℤ◌, ◌-ℤ◌, as_i64, as_u64}
use nyse_pillar_market_data.Double.{Double, less, greater}

pub record DailyStats (D : Type 0) : Type 0 where
  pub open_price : Option D
  pub high_price : Option D
  pub low_price : Option D
  pub close_price : Option D
  pub total_volume : ℕ

pub record TradeRecord (D : Type 0) : Type 0 where
  pub price : D
  pub volume : ℕ
  pub cancelled : Bool

-- `DailyStats{}`.
abbrev pub no_stats : {D : Type 0} → DailyStats D
no_stats = record {
  open_price = none;
  high_price = none;
  low_price = none;
  close_price = none;
  total_volume = 0;
}

-- `if (!field) field = price`.
abbrev pub or_first : {D : Type 0} → Option D → D → Option D
or_first none p = some p
or_first (some q) p = some q

-- `if (!field || price beats *field) field = price`.
abbrev pub or_better : {D : Type 0} → (D → D → Bool) → Option D → D → Option D
or_better beats none p = some p
or_better beats (some q) p = if beats p q then some p else some q

-- `_log[i]._cancelled`.
abbrev pub is_cancelled : {D : Type 0} → List (TradeRecord D) → ℕ → Bool
is_cancelled log i = elim (get_elem? log i) [ none ↦ false | some r ↦ r.cancelled ]

-- `_log[i]._volume`.
abbrev pub volume_at : {D : Type 0} → List (TradeRecord D) → ℕ → ℕ
volume_at log i = elim (get_elem? log i) [ none ↦ 0 | some r ↦ r.volume ]

-- The total after a volume is restated, in the signed arithmetic of the source. A signed overflow,
-- which takes volumes of 2^63 and more, is read as wrap-around.
abbrev pub restated_total : ℕ → ℕ → ℕ → ℕ
restated_total total new old = as_u64 (as_i64 total +ℤ (as_i64 new -ℤ as_i64 old))

module _ {D : Type 0} ⦃d : Double D⦄ where
  unfoldable pub fold_into_stats : DailyStats D → D → ℕ → DailyStats D
  fold_into_stats s p v = record {
    open_price = or_first s.open_price p;
    high_price = or_better greater s.high_price p;
    low_price = or_better less s.low_price p;
    close_price = some p;
    total_volume = add64 s.total_volume v;
  }

  -- The loop of `Recompute`.
  unfoldable pub recompute_loop : DailyStats D → List (TradeRecord D) → DailyStats D
  recompute_loop s [] = s
  recompute_loop s (t ∷ ts) =
      recompute_loop (if t.cancelled then s else fold_into_stats s t.price t.volume) ts
