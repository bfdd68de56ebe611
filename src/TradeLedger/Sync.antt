-- ===== src/TradeLedger/Sync.antt =====
-- The ledger of one symbol stays in step with its log: the statistics are those of the live trades,
-- every id points into the log, and volumes are 64-bit words.
use nyse_pillar_market_data.Prelude.{
  ℕ, ◌-◌, ◌<◌, ◌≡◌, refl, ap, false, [], ◌∷◌, ◌++◌, some, All, arith, inl, inr, Option-cases,
  length, length-append, length-modify, All-append, All-modify, All-get_elem?, get_elem?-in_range,
  get_elem?, modify, nat_eq,
}
use nyse_pillar_market_data.Prelude.Int.{as_u64-add-sub}
use nyse_pillar_market_data.Prelude.Word.{u64_mod}
use nyse_pillar_market_data.Double.{Double}
use nyse_pillar_market_data.Map.{find, assign, AllValues}
use nyse_pillar_market_data.Map.Laws.{assign-AllValues, find-AllValues, AllValues-mono}
use nyse_pillar_market_data.Stats.{
  is_cancelled, volume_at, TradeRecord, no_stats, fold_into_stats, recompute_loop, restated_total,
}
use nyse_pillar_market_data.Stats.Edit.{
  with_volume, cancel, recompute_loop-snoc, recompute_loop-modify, total_volume-lt,
}
use nyse_pillar_market_data.TradeLedger.{
  SymbolLedger, empty_ledger, append_raw, find_live, recompute, record_in, cancel_in, replace_in,
  adjust_in,
}

pub record IsSynced {D : Type 0} ⦃d : Double D⦄ (l : SymbolLedger D) : Type 0 where
  pub synced : l.stats ≡ recompute_loop no_stats l.log
  pub indexed : AllValues (λ i. i < length l.log) l.by_id
  pub small : All (λ t. t.volume < u64_mod) l.log

module _ {D : Type 0} ⦃d : Double D⦄ where
  pub empty_ledger-IsSynced : IsSynced {D = D} empty_ledger
  unfolding recompute_loop
  empty_ledger-IsSynced = record { synced = refl; indexed = tt; small = tt }

  -- A new trade at the end of the log, registered under an id.
  append-indexed :
      (id : ℕ) (l : SymbolLedger D) (t : TradeRecord D)
      → IsSynced l
      → AllValues
          (λ i. i < length (l.log ++ t ∷ []))
          (assign id (length (l.log ++ t ∷ []) - 1) l.by_id)
  append-indexed id l t v =
      let grown = length-append l.log (t ∷ []) in
      assign-AllValues (λ i. i < length (l.log ++ t ∷ [])) id _ l.by_id (omega arith)
        (AllValues-mono (λ i. i < length l.log) (λ i. i < length (l.log ++ t ∷ [])) l.by_id
          (λ i h. omega arith) v.indexed)

  pub record_in-IsSynced :
      (id : ℕ) (price : D) (volume : ℕ) (l : SymbolLedger D)
      → volume < u64_mod
      → IsSynced l
      → IsSynced (record_in id price volume l)
  unfolding record_in
  record_in-IsSynced id price volume l h v =
      let t : TradeRecord D = record { price = price; volume = volume; cancelled = false } in
      record {
        synced =
            rw (recompute_loop-snoc no_stats l.log t refl)
              (ap (λ s. fold_into_stats s price volume) v.synced);
        indexed = append-indexed id l t v;
        small = All-append _ l.log (t ∷ []) v.small (h, tt);
      }

  -- Cancelling at an index and recomputing.
  cancel_at-IsSynced :
      (i : ℕ) (l : SymbolLedger D)
      → IsSynced l
      → IsSynced (recompute (record l { log = modify l.log i cancel }))
  unfolding recompute
  cancel_at-IsSynced i l v = record {
    synced = refl;
    indexed = rw (length-modify l.log i cancel) v.indexed;
    small = All-modify _ l.log i cancel (λ t h. h) v.small;
  }

  pub cancel_in-IsSynced : (id : ℕ) (l : SymbolLedger D) → IsSynced l → IsSynced (cancel_in id l).0
  unfolding cancel_in
  cancel_in-IsSynced id l v = elim (Option-cases (find_live l id)) [
    | inl e ↦ rw (e, cancel_in) v
    | inr (i, e) ↦ rw (e, cancel_in) (cancel_at-IsSynced i l v)
  ]

  -- The volume is restated on a live trade.
  adjust_in-synced :
      (n i : ℕ) (l : SymbolLedger D) {t : TradeRecord D}
      → n < u64_mod
      → t.volume < u64_mod
      → get_elem? l.log i ≡ some t
      → t.cancelled ≡ false
      → l.stats ≡ recompute_loop no_stats l.log
      → record (l.stats) { total_volume = restated_total l.stats.total_volume n t.volume }
        ≡ recompute_loop no_stats (modify l.log i (with_volume n))
  adjust_in-synced n i l {t} hn ht e c synced = rw (
    recompute_loop-modify l.log i n {t = t} e c ht,
    synced,
    as_u64-add-sub _ n t.volume (total_volume-lt l.log) hn ht,
  )

  adjust_at-IsSynced :
      (n i : ℕ) (l : SymbolLedger D)
      → n < u64_mod
      → i < length l.log
      → is_cancelled l.log i ≡ false
      → IsSynced l
      → IsSynced (record l {
        log = modify l.log i (with_volume n);
        stats = record (l.stats) {
          total_volume = restated_total l.stats.total_volume n (volume_at l.log i);
        };
      })
  adjust_at-IsSynced n i l hn hi c v =
      let (t, e) = get_elem?-in_range l.log i hi in
      let old : volume_at l.log i ≡ t.volume = ground (arith, e) in
      let live : t.cancelled ≡ false = ground (arith, e) in
      record {
        synced =
            rw old (
              adjust_in-synced n i l {t = t} hn (All-get_elem? _ l.log i v.small e) e live
                v.synced);
        indexed = rw (length-modify l.log i (with_volume n)) v.indexed;
        small = All-modify _ l.log i (with_volume n) (λ t h. hn) v.small;
      }

  -- The volume of a trade that is still live can be restated.
  pub adjust_in-IsSynced :
      (id n : ℕ) (l : SymbolLedger D)
      → n < u64_mod
      → ((i : ℕ) → find id l.by_id ≡ some i → is_cancelled l.log i ≡ false)
      → IsSynced l
      → IsSynced (adjust_in id n l).0
  unfolding adjust_in
  adjust_in-IsSynced id n l hn live v = elim (Option-cases (find id l.by_id)) [
    | inl e ↦ rw (e, adjust_in) v
    | inr (i, e) ↦
        rw (e, adjust_in)
          (adjust_at-IsSynced n i l hn (find-AllValues _ id l.by_id v.indexed e) (live i e) v)
  ]

  recompute-IsSynced :
      (l : SymbolLedger D)
      → AllValues (λ i. i < length l.log) l.by_id
      → All (λ t. t.volume < u64_mod) l.log
      → IsSynced (recompute l)
  unfolding recompute
  recompute-IsSynced l ix sm = record { synced = refl; indexed = ix; small = sm }

  -- Recording in a ledger whose statistics are out of step, and recomputing, gives the same as
  -- recomputing first.
  recompute-record :
      (id : ℕ) (price : D) (volume : ℕ) (l : SymbolLedger D)
      → recompute (record (append_raw l price volume).0 {
        by_id = assign id (append_raw l price volume).1 l.by_id;
      })
        ≡ record_in id price volume (recompute l)
  unfolding recompute record_in
  recompute-record id price volume l =
      let t : TradeRecord D = record { price = price; volume = volume; cancelled = false } in
      ground (arith, recompute_loop-snoc no_stats l.log t refl)

  recompute-synced : (l : SymbolLedger D) → IsSynced l → recompute l ≡ l
  unfolding recompute
  recompute-synced l v = ground (arith, v.synced)

  -- `ReplaceTrade` is `CancelTrade` of the old id and `RecordTrade` of the new.
  pub replace_in-eq :
      (old_id new_id : ℕ) (price : D) (volume : ℕ) (l : SymbolLedger D)
      → IsSynced l
      → replace_in old_id new_id price volume l
        ≡ (record_in new_id price volume (cancel_in old_id l).0, (cancel_in old_id l).1)
  unfolding replace_in cancel_in
  replace_in-eq old_id new_id price volume l v = elim (Option-cases (find_live l old_id)) [
    | inl e ↦
        rw (e, cancel_in)
          (ground (arith, recompute-record new_id price volume l, recompute-synced l v))
    | inr (i, e) ↦
        rw (e, cancel_in)
          (ground (
            arith,
            recompute-record new_id price volume (record l { log = modify l.log i cancel }),
          ))
  ]
