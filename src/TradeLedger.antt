-- ===== src/TradeLedger.antt =====
-- include/model/trade_ledger.hpp and src/model/trade_ledger.cpp: `class TradeLedger`.
-- A method returns the new ledger, with its `bool` where it has one. A log index that is out of range,
-- undefined in the source, reads as not cancelled and writes nothing.
pub mod Sync
pub mod Calls
pub mod Results
pub mod Restated
mod Tests
use nyse_pillar_market_data.Prelude.{
  ℕ, ◌+◌, ◌-◌, Bool, true, false, List, [], ◌∷◌, ◌++◌, Option, none, some, Text, text_eq, nat_eq,
  length, modify, if◌then◌else◌,
}
use nyse_pillar_market_data.Prelude.Word.{add64}
use nyse_pillar_market_data.Double.{Double}
use nyse_pillar_market_data.Map.{Map, find, assign, get_or, keys}
use nyse_pillar_market_data.Stats.{
  DailyStats, TradeRecord, no_stats, fold_into_stats, recompute_loop, restated_total, is_cancelled,
  volume_at,
}
use nyse_pillar_market_data.Stats.Edit.{with_volume, cancel}

pub record SymbolLedger (D : Type 0) : Type 0 where
  pub log : List (TradeRecord D)
  pub by_id : Map ℕ ℕ
  pub stats : DailyStats D

pub record TradeLedger (D : Type 0) : Type 0 where
  pub ledgers : Map Text (SymbolLedger D)
  pub failures : ℕ

module _ {D : Type 0} where
  abbrev pub empty_ledger : SymbolLedger D
  empty_ledger = record { log = []; by_id = []; stats = no_stats }

  abbrev pub empty : TradeLedger D
  empty = record { ledgers = []; failures = 0 }

  abbrev pub get_or_create : Text → TradeLedger D → SymbolLedger D
  get_or_create symbol t = get_or symbol empty_ledger t.ledgers

  -- The ledger of the symbol after a call, and the failure counter raised where the call failed.
  unfoldable pub store : Text → SymbolLedger D → Bool → TradeLedger D → TradeLedger D
  store symbol ledger fine t = record {
    ledgers = assign symbol ledger t.ledgers;
    failures = if fine then t.failures else add64 t.failures 1;
  }

  -- The new ledger, and the index of the new record.
  unfoldable pub append_raw : SymbolLedger D → D → ℕ → SymbolLedger D × ℕ
  append_raw ledger price volume =
      let log = ledger.log ++ record { price = price; volume = volume; cancelled = false } ∷ [] in
      (record ledger { log = log }, length log - 1)

  -- The index that `_byId` holds for an id whose trade is still live.
  abbrev pub find_live : SymbolLedger D → ℕ → Option ℕ
  find_live ledger id = elim (find id ledger.by_id) [
    | none ↦ none
    | some i ↦ if is_cancelled ledger.log i then none else some i
  ]

  module _ ⦃d : Double D⦄ where
    unfoldable pub recompute : SymbolLedger D → SymbolLedger D
    recompute ledger = record ledger { stats = recompute_loop no_stats ledger.log }

    -- `RecordTrade` on the ledger of its symbol.
    unfoldable pub record_in : ℕ → D → ℕ → SymbolLedger D → SymbolLedger D
    unfolding append_raw
    record_in id price volume ledger =
        let (appended, i) = append_raw ledger price volume in
        record appended {
          by_id = assign id i appended.by_id;
          stats = fold_into_stats appended.stats price volume;
        }

    unfoldable pub record_trade : Text → ℕ → D → ℕ → TradeLedger D → TradeLedger D
    unfolding store
    record_trade symbol id price volume t =
        store symbol (record_in id price volume (get_or_create symbol t)) true t

    -- `CancelTrade` on the ledger of its symbol.
    unfoldable pub cancel_in : ℕ → SymbolLedger D → SymbolLedger D × Bool
    unfolding recompute
    cancel_in id ledger = elim (find_live ledger id) [
      | none ↦ (ledger, false)
      | some i ↦ (recompute (record ledger { log = modify ledger.log i cancel }), true)
    ]

    unfoldable pub cancel_trade : Text → ℕ → TradeLedger D → TradeLedger D × Bool
    unfolding store
    cancel_trade symbol id t =
        let (ledger, fine) = cancel_in id (get_or_create symbol t) in
        (store symbol ledger fine t, fine)

    -- `ReplaceTrade` on the ledger of its symbol.
    unfoldable pub replace_in : ℕ → ℕ → D → ℕ → SymbolLedger D → SymbolLedger D × Bool
    unfolding append_raw recompute
    replace_in old_id new_id price volume ledger =
        let found_old = find_live ledger old_id in
        let marked : SymbolLedger D = elim found_old [
          | none ↦ ledger
          | some i ↦ record ledger { log = modify ledger.log i cancel }
        ] in
        let (appended, i) = append_raw marked price volume in
        (
          recompute (record appended { by_id = assign new_id i appended.by_id }),
          elim found_old [ none ↦ false | some i ↦ true ],
        )

    unfoldable pub replace_trade : Text → ℕ → ℕ → D → ℕ → TradeLedger D → TradeLedger D × Bool
    unfolding store
    replace_trade symbol old_id new_id price volume t =
        let (ledger, fine) = replace_in old_id new_id price volume (get_or_create symbol t) in
        (store symbol ledger fine t, fine)

  -- `AdjustVolume` on the ledger of its symbol.
  unfoldable pub adjust_in : ℕ → ℕ → SymbolLedger D → SymbolLedger D × Bool
  adjust_in id new_volume ledger = elim (find id ledger.by_id) [
    | none ↦ (ledger, false)
    | some i ↦ (
      record ledger {
        log = modify ledger.log i (with_volume new_volume);
        stats = record (ledger.stats) {
          total_volume =
              restated_total ledger.stats.total_volume new_volume (volume_at ledger.log i);
        };
      },
      true,
    )
  ]

  unfoldable pub adjust_volume : Text → ℕ → ℕ → TradeLedger D → TradeLedger D × Bool
  unfolding store
  adjust_volume symbol id new_volume t =
      let (ledger, fine) = adjust_in id new_volume (get_or_create symbol t) in
      (store symbol ledger fine t, fine)

  unfoldable pub get_daily_stats : Text → TradeLedger D → DailyStats D
  get_daily_stats symbol t = elim (find symbol t.ledgers) [ none ↦ no_stats | some l ↦ l.stats ]

  unfoldable pub get_symbols : TradeLedger D → List Text
  get_symbols t = keys t.ledgers

  abbrev pub get_failure_count : TradeLedger D → ℕ
  get_failure_count t = t.failures
