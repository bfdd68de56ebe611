-- ===== src/TradeLedger/Restated.antt =====
-- Restating a volume: `AdjustVolume` against a full recomputation, and what it does to the statistics
-- where the trade was cancelled before.
use nyse_pillar_market_data.Prelude.{
  ℕ, suc, zero, ◌+◌, ◌-◌, ◌%◌, ◌<◌, ◌≡◌, ◌≢◌, refl, true, false, List, [], ◌∷◌, some, Text, text_eq,
  nat_eq, arith, get_elem?, modify, All-get_elem?,
}
use nyse_pillar_market_data.Prelude.Word.{u64_mod}
use nyse_pillar_market_data.Prelude.Int.{as_u64-add-sub}
use nyse_pillar_market_data.Double.{Double}
use nyse_pillar_market_data.Map.{find}
use nyse_pillar_market_data.Stats.{
  volume_at, is_cancelled, TradeRecord, no_stats, recompute_loop, restated_total,
}
use nyse_pillar_market_data.Stats.Summary.{IsSummary, live, sum_volume}
use nyse_pillar_market_data.Stats.Edit.{with_volume, live_volume, recompute_loop-total_volume}
use nyse_pillar_market_data.TradeLedger.{
  SymbolLedger, TradeLedger, get_or_create, store, recompute, adjust_in, adjust_volume,
  get_daily_stats,
}
use nyse_pillar_market_data.TradeLedger.Sync.{IsSynced, adjust_in-IsSynced}
use nyse_pillar_market_data.TradeLedger.Calls.{
  IsValid, get_daily_stats-eq, get_or_create-store_self,
}

module _ {D : Type 0} where
  sum_volume-live : (log : List (TradeRecord D)) → sum_volume (live log) ≡ live_volume log
  unfolding live_volume
  sum_volume-live [] = refl
  sum_volume-live (t ∷ ts) = ground (arith, sum_volume-live ts)

  live-modify_cancelled :
      (log : List (TradeRecord D)) (i n : ℕ) {r : TradeRecord D}
      → get_elem? log i ≡ some r
      → r.cancelled ≡ true
      → live_volume (modify log i (with_volume n)) ≡ live_volume log
  unfolding live_volume
  live-modify_cancelled [] i n {r} e c = ground arith
  live-modify_cancelled (t ∷ ts) zero n {r} e c = ground arith
  live-modify_cancelled (t ∷ ts) (suc i) n {r} e c =
      omega (arith, live-modify_cancelled ts i n {r = r} e c)

module _ {D : Type 0} ⦃d : Double D⦄ where
  -- The ledger after a restated volume.
  abbrev restated : ℕ → ℕ → SymbolLedger D → SymbolLedger D
  restated n i l = record l {
    log = modify l.log i (with_volume n);
    stats = record (l.stats) {
      total_volume = restated_total l.stats.total_volume n (volume_at l.log i);
    };
  }

  restated-not-IsSummary :
      (n i : ℕ) (l : SymbolLedger D) {r : TradeRecord D}
      → IsSynced l
      → get_elem? l.log i ≡ some r
      → r.cancelled ≡ true
      → n < u64_mod
      → n ≢ r.volume
      → ¬ IsSummary (restated n i l).log (restated n i l).stats
  restated-not-IsSummary n i l {r} v e c hn ne s =
      let log' = modify l.log i (with_volume n) in
      let total = l.stats.total_volume in
      let old : volume_at l.log i ≡ r.volume = ground (arith, e) in
      let hr : r.volume < u64_mod = All-get_elem? _ l.log i {a = r} v.small e in
      let known : total ≡ live_volume l.log % u64_mod =
        rw (v.synced) (omega (arith, recompute_loop-total_volume no_stats l.log (omega arith))) in
      let small : total < u64_mod = omega arith in
      let after : restated_total total n r.volume ≡ (total + (n + u64_mod - r.volume)) % u64_mod =
        as_u64-add-sub total n r.volume small hn hr in
      let claimed : restated_total total n r.volume ≡ live_volume l.log % u64_mod =
        rw (← live-modify_cancelled l.log i n {r = r} e c, ← sum_volume-live log')
          (rw old at s.volume) in
      ne (omega arith)

  -- The bug: if the trade of an id was cancelled, then restating its volume to another 64-bit value
  -- answers true, and the statistics of the symbol are no longer those of its live trades. The ledger
  -- was in step with its logs before.
  pub adjust_volume-not-IsSummary :
      (symbol : Text) (id n i : ℕ) (t : TradeLedger D) {r : TradeRecord D}
      → IsValid t
      → find id (get_or_create symbol t).by_id ≡ some i
      → get_elem? (get_or_create symbol t).log i ≡ some r
      → r.cancelled ≡ true
      → n < u64_mod
      → n ≢ r.volume
      → let t' = adjust_volume symbol id n t in
        (t'.1 ≡ true) × ¬ IsSummary (get_or_create symbol t'.0).log (get_daily_stats symbol t'.0)
  unfolding adjust_volume adjust_in
  adjust_volume-not-IsSummary symbol id n i t {r} v known e c hn ne =
      let l = get_or_create symbol t in
      let l' = restated n i l in
      let done : adjust_in id n l ≡ (l', true) = rw (known, adjust_in) in
      let there : get_or_create symbol (store symbol l' true t) ≡ l' =
        get_or_create-store_self symbol l' true t in
      rw done (
        refl,
        rw (get_daily_stats-eq symbol (store symbol l' true t), there)
            (restated-not-IsSummary n i l {r = r} (v.every symbol) e c hn ne),
      )

  -- On a trade that is not cancelled the volume delta gives what a full recomputation of the
  -- statistics gives, for 64-bit volumes and a ledger that is in step with its logs.
  pub adjust_in-eq-recompute :
      (id n i : ℕ) (l : SymbolLedger D)
      → IsSynced l
      → find id l.by_id ≡ some i
      → is_cancelled l.log i ≡ false
      → n < u64_mod
      → adjust_in id n l ≡ (recompute (record l { log = modify l.log i (with_volume n) }), true)
  unfolding recompute adjust_in
  adjust_in-eq-recompute id n i l v known c hn =
      let live : (j : ℕ) → find id l.by_id ≡ some j → is_cancelled l.log j ≡ false =
        λ j e. ground arith in
      let after = (adjust_in-IsSynced id n l hn live v).synced in
      let done : adjust_in id n l ≡ (restated n i l, true) = rw (known, adjust_in) in
      let same : (restated n i l).stats ≡ recompute_loop no_stats (restated n i l).log =
        rw done at after in
      rw done (ground (arith, same))
