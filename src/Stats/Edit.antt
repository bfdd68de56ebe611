-- ===== src/Stats/Edit.antt =====
-- The effect on the statistics of appending to the log, and of restating the volume of one trade.
use nyse_pillar_market_data.Prelude.{
  ℕ, zero, suc, ◌+◌, ◌-◌, ◌%◌, ◌<◌, ◌≡◌, refl, true, false, List, [], ◌∷◌, ◌++◌, some, arith,
  if◌then◌else◌, Bool-cases, inl, inr, get_elem?, modify,
}
use nyse_pillar_market_data.Prelude.Word.{u64_mod, add64-lt}
use nyse_pillar_market_data.Double.{Double}
use nyse_pillar_market_data.Stats.{
  DailyStats, TradeRecord, no_stats, fold_into_stats, recompute_loop,
}

-- `trade._volume = volume`.
abbrev pub with_volume : {D : Type 0} → ℕ → TradeRecord D → TradeRecord D
with_volume n t = record t { volume = n }

-- `trade._cancelled = true`.
abbrev pub cancel : {D : Type 0} → TradeRecord D → TradeRecord D
cancel t = record t { cancelled = true }

-- The statistics agree but for the volume.
pub record SamePrices {D : Type 0} (s s' : DailyStats D) : Type 0 where
  pub opening : s.open_price ≡ s'.open_price
  pub highest : s.high_price ≡ s'.high_price
  pub lowest : s.low_price ≡ s'.low_price
  pub closing : s.close_price ≡ s'.close_price

-- The live volume of a log.
unfoldable pub live_volume : {D : Type 0} → List (TradeRecord D) → ℕ
live_volume [] = 0
live_volume (t ∷ ts) = (if t.cancelled then 0 else t.volume) + live_volume ts

module _ {D : Type 0} ⦃d : Double D⦄ where
  pub recompute_loop-snoc :
      (s : DailyStats D) (log : List (TradeRecord D)) (t : TradeRecord D)
      → t.cancelled ≡ false
      → recompute_loop s (log ++ t ∷ []) ≡ fold_into_stats (recompute_loop s log) t.price t.volume
  unfolding recompute_loop
  recompute_loop-snoc s [] t c = rw c
  recompute_loop-snoc s (x ∷ xs) t c =
      recompute_loop-snoc (if x.cancelled then s else fold_into_stats s x.price x.volume) xs t c

  pub recompute_loop-total_volume :
      (s : DailyStats D) (log : List (TradeRecord D))
      → s.total_volume < u64_mod
      → (recompute_loop s log).total_volume ≡ (s.total_volume + live_volume log) % u64_mod
  unfolding recompute_loop live_volume fold_into_stats
  recompute_loop-total_volume s [] h = omega arith
  recompute_loop-total_volume s (t ∷ ts) h = elim (Bool-cases t.cancelled) [
    | inl c ↦ rw c (omega (arith, recompute_loop-total_volume s ts h))
    | inr c ↦ rw c (
        omega (
          arith,
          recompute_loop-total_volume (fold_into_stats s t.price t.volume) ts
              (add64-lt s.total_volume t.volume),
        ))
  ]

  -- The total is a 64-bit word.
  pub total_volume-lt :
      (log : List (TradeRecord D)) → (recompute_loop no_stats log).total_volume < u64_mod
  total_volume-lt log = omega (arith, recompute_loop-total_volume no_stats log)

  step : DailyStats D → TradeRecord D → DailyStats D
  step s t = if t.cancelled then s else fold_into_stats s t.price t.volume

  step-SamePrices :
      (s s' : DailyStats D) (t : TradeRecord D)
      → SamePrices s s'
      → SamePrices (step s t) (step s' t)
  unfolding step fold_into_stats
  step-SamePrices s s' t v = ground arith

  step-with_volume :
      (s : DailyStats D) (t : TradeRecord D) (n : ℕ)
      → SamePrices (step s (with_volume n t)) (step s t)
  unfolding step fold_into_stats
  step-with_volume s t n = ground arith

  recompute_loop-SamePrices :
      (log : List (TradeRecord D)) (s s' : DailyStats D)
      → SamePrices s s'
      → SamePrices (recompute_loop s log) (recompute_loop s' log)
  unfolding recompute_loop step
  recompute_loop-SamePrices [] s s' v = v
  recompute_loop-SamePrices (t ∷ ts) s s' v =
      recompute_loop-SamePrices ts (step s t) (step s' t) (step-SamePrices s s' t v)

  -- A restated volume moves no price.
  modify-SamePrices :
      (log : List (TradeRecord D)) (i n : ℕ) (s : DailyStats D)
      → SamePrices (recompute_loop s (modify log i (with_volume n))) (recompute_loop s log)
  unfolding recompute_loop step
  modify-SamePrices [] i n s = record {
    opening = refl;
    highest = refl;
    lowest = refl;
    closing = refl;
  }
  modify-SamePrices (t ∷ ts) zero n s =
      recompute_loop-SamePrices ts (step s (with_volume n t)) (step s t) (step-with_volume s t n)
  modify-SamePrices (t ∷ ts) (suc i) n s = modify-SamePrices ts i n (step s t)

  live_volume-modify :
      (log : List (TradeRecord D)) (i n : ℕ) {t : TradeRecord D}
      → get_elem? log i ≡ some t
      → t.cancelled ≡ false
      → live_volume (modify log i (with_volume n)) + t.volume ≡ live_volume log + n
  unfolding live_volume
  live_volume-modify [] i n {t} h c = ground arith
  live_volume-modify (x ∷ xs) zero n {t} h c = ground arith
  live_volume-modify (x ∷ xs) (suc i) n {t} h c =
      omega (arith, live_volume-modify xs i n {t = t} h c)

  -- Restating the volume of a live trade moves the total by the difference, modulo 2^64, and nothing
  -- else.
  pub recompute_loop-modify :
      (log : List (TradeRecord D)) (i n : ℕ) {t : TradeRecord D}
      → get_elem? log i ≡ some t
      → t.cancelled ≡ false
      → t.volume < u64_mod
      → let s = recompute_loop no_stats log in
        recompute_loop no_stats (modify log i (with_volume n))
        ≡ record s { total_volume = (s.total_volume + (n + u64_mod - t.volume)) % u64_mod }
  recompute_loop-modify log i n {t} h c lt =
      let same = modify-SamePrices log i n no_stats in
      let before = recompute_loop-total_volume no_stats log (omega arith) in
      let after =
        recompute_loop-total_volume no_stats (modify log i (with_volume n)) (omega arith) in
      let moved = live_volume-modify log i n {t = t} h c in
      let total : (recompute_loop no_stats (modify log i (with_volume n))).total_volume
          ≡ ((recompute_loop no_stats log).total_volume + (n + u64_mod - t.volume)) % u64_mod =
        omega arith in
      ground (arith, total, same.opening, same.highest, same.lowest, same.closing)
