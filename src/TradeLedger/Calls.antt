-- ===== src/TradeLedger/Calls.antt =====
-- Whole histories of `TradeLedger` calls.
use nyse_pillar_market_data.Prelude.{
  ℕ, ◌<◌, ◌≡◌, Bool, true, false, List, [], ◌∷◌, some, Text, text_eq, nat_eq, arith, inl, inr,
  Bool-cases, if◌then◌else◌,
}
use nyse_pillar_market_data.Prelude.Word.{u64_mod}
use nyse_pillar_market_data.Double.{Double, IsOrdered, ticks_double}
use nyse_pillar_market_data.Map.{find}
use nyse_pillar_market_data.Map.Laws.{get_or-assign, beq_refl}
use nyse_pillar_market_data.Stats.Summary.{IsSummary, recompute_loop-IsSummary}
use nyse_pillar_market_data.Stats.{is_cancelled}
use nyse_pillar_market_data.TradeLedger.{
  SymbolLedger, TradeLedger, empty_ledger, empty, get_or_create, store, record_trade, cancel_trade,
  replace_trade, adjust_volume, get_daily_stats,
}
use nyse_pillar_market_data.TradeLedger.Sync.{
  IsSynced, empty_ledger-IsSynced, record_in-IsSynced, cancel_in-IsSynced, adjust_in-IsSynced,
  replace_in-eq,
}

-- A call by a client.
pub data Call (D : Type 0) : Type 0 where
  records : Text → ℕ → D → ℕ → Call D
  cancels : Text → ℕ → Call D
  adjusts : Text → ℕ → ℕ → Call D
  replaces : Text → ℕ → ℕ → D → ℕ → Call D

-- The symbol that a call names.
abbrev pub call_symbol : {D : Type 0} → Call D → Text
call_symbol (records symbol id price volume) = symbol
call_symbol (cancels symbol id) = symbol
call_symbol (adjusts symbol id volume) = symbol
call_symbol (replaces symbol old_id new_id price volume) = symbol

module _ {D : Type 0} where
  pub get_or_create-store :
      (s symbol : Text) (l : SymbolLedger D) (fine : Bool) (t : TradeLedger D)
      → get_or_create s (store symbol l fine t)
        ≡ (if text_eq.beq symbol s then l else get_or_create s t)
  unfolding store
  get_or_create-store s symbol l fine t = get_or-assign symbol s l empty_ledger t.ledgers

  pub get_or_create-store_self :
      (symbol : Text) (l : SymbolLedger D) (fine : Bool) (t : TradeLedger D)
      → get_or_create symbol (store symbol l fine t) ≡ l
  get_or_create-store_self symbol l fine t =
      rw (get_or_create-store symbol symbol l fine t, beq_refl symbol)

module _ {D : Type 0} ⦃d : Double D⦄ where
  unfoldable pub step : TradeLedger D → Call D → TradeLedger D
  step t (records symbol id price volume) = record_trade symbol id price volume t
  step t (cancels symbol id) = (cancel_trade symbol id t).0
  step t (adjusts symbol id volume) = (adjust_volume symbol id volume t).0
  step t (replaces symbol old_id new_id price volume) =
      (replace_trade symbol old_id new_id price volume t).0

  unfoldable pub run : TradeLedger D → List (Call D) → TradeLedger D
  run t [] = t
  run t (c ∷ cs) = run (step t c) cs

  -- Volumes are 64-bit words, and no volume is restated on a cancelled trade.
  abbrev pub IsAllowed : TradeLedger D → Call D → Type 0
  IsAllowed t (records symbol id price volume) = volume < u64_mod
  IsAllowed t (cancels symbol id) = Unit
  IsAllowed t (adjusts symbol id volume) =
      (volume < u64_mod)
      × ((i : ℕ)
          → find id (get_or_create symbol t).by_id ≡ some i
          → is_cancelled (get_or_create symbol t).log i ≡ false)
  IsAllowed t (replaces symbol old_id new_id price volume) = volume < u64_mod

  abbrev pub AreAllowed : TradeLedger D → List (Call D) → Type 0
  AreAllowed t [] = Unit
  AreAllowed t (c ∷ cs) = IsAllowed t c × AreAllowed (step t c) cs

  -- Every symbol's ledger is in step with its log.
  pub record IsValid (t : TradeLedger D) : Type 0 where
    pub every : (symbol : Text) → IsSynced (get_or_create symbol t)

  pub empty-IsValid : IsValid empty
  unfolding find
  empty-IsValid = record { every = λ symbol. empty_ledger-IsSynced }

  store-IsValid :
      (symbol : Text) (l : SymbolLedger D) (fine : Bool) (t : TradeLedger D)
      → IsSynced l
      → IsValid t
      → IsValid (store symbol l fine t)
  store-IsValid symbol l fine t vl vt = record {
    every = λ s.
        rw (get_or_create-store s symbol l fine t) (elim (Bool-cases (text_eq.beq symbol s)) [
          | inl e ↦ rw e vl
          | inr e ↦ rw e (vt.every s)
        ]);
  }

  step-IsValid : (t : TradeLedger D) (c : Call D) → IsAllowed t c → IsValid t → IsValid (step t c)
  unfolding step record_trade cancel_trade adjust_volume replace_trade
  step-IsValid t (records symbol id price volume) a v =
      store-IsValid symbol _ true t (record_in-IsSynced id price volume _ a (v.every symbol)) v
  step-IsValid t (cancels symbol id) a v =
      store-IsValid symbol _ _ t (cancel_in-IsSynced id _ (v.every symbol)) v
  step-IsValid t (adjusts symbol id volume) a v =
      store-IsValid symbol _ _ t (adjust_in-IsSynced id volume _ a.0 a.1 (v.every symbol)) v
  step-IsValid t (replaces symbol old_id new_id price volume) a v =
      rw (replace_in-eq old_id new_id price volume (get_or_create symbol t) (v.every symbol)) (
        store-IsValid symbol _ _ t
          (record_in-IsSynced new_id price volume _ a
            (cancel_in-IsSynced old_id _ (v.every symbol)))
          v)

  pub run-IsValid :
      (t : TradeLedger D) (cs : List (Call D)) → AreAllowed t cs → IsValid t → IsValid (run t cs)
  unfolding run
  run-IsValid t [] a v = v
  run-IsValid t (c ∷ cs) a v = run-IsValid (step t c) cs a.1 (step-IsValid t c a.0 v)

  pub get_daily_stats-eq :
      (s : Text) (t : TradeLedger D) → get_daily_stats s t ≡ (get_or_create s t).stats
  unfolding get_daily_stats
  get_daily_stats-eq s t = ground arith

  -- After any history of calls on a new ledger that restates no volume of a cancelled trade, the
  -- statistics of every symbol are the first, highest, lowest and last price and the total volume
  -- (modulo 2^64) of the trades in its log that are not cancelled. Prices are ordered, and volumes
  -- are 64-bit words.
  pub get_daily_stats-run-IsSummary :
      IsOrdered D
      → (cs : List (Call D)) (symbol : Text) → AreAllowed empty cs
      → IsSummary (get_or_create symbol (run empty cs)).log (get_daily_stats symbol (run empty cs))
  get_daily_stats-run-IsSummary o cs symbol a =
      let t = run empty cs in
      rw (get_daily_stats-eq symbol t, ((run-IsValid empty cs a empty-IsValid).every symbol).synced)
        (recompute_loop-IsSummary o (get_or_create symbol t).log)

  -- A call changes the ledger of the symbol that it names, and of no other.
  pub get_or_create-step_ne :
      (t : TradeLedger D) (c : Call D) (symbol : Text)
      → text_eq.beq (call_symbol c) symbol ≡ false
      → get_or_create symbol (step t c) ≡ get_or_create symbol t
  unfolding step record_trade cancel_trade adjust_volume replace_trade
  get_or_create-step_ne t (records s id price volume) symbol h =
      rw (get_or_create-store symbol s _ true t, h)
  get_or_create-step_ne t (cancels s id) symbol h = rw (get_or_create-store symbol s _ _ t, h)
  get_or_create-step_ne t (adjusts s id volume) symbol h =
      rw (get_or_create-store symbol s _ _ t, h)
  get_or_create-step_ne t (replaces s old_id new_id price volume) symbol h =
      rw (get_or_create-store symbol s _ _ t, h)
