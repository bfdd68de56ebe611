-- ===== src/TradeLedger/Tests.antt =====
-- The trade ledger at concrete calls: prices are whole ticks.
use nyse_pillar_market_data.Prelude.{
  ◌≡◌, refl, true, false, List, [], ◌∷◌, some, Text, text_eq, nat_eq, text_beq, arith, modify,
  get_elem?,
}
use nyse_pillar_market_data.Prelude.Word.{add64}
use nyse_pillar_market_data.Prelude.Int.{as_u64, as_i64, ◌+ℤ◌, ◌-ℤ◌}
use nyse_pillar_market_data.Double.{Ticks, ticks_double, Ticks-IsOrdered}
use nyse_pillar_market_data.Map.{find, assign}
use nyse_pillar_market_data.Stats.{TradeRecord, is_cancelled, recompute_loop, fold_into_stats}
use nyse_pillar_market_data.Stats.Edit.{with_volume}
use nyse_pillar_market_data.Stats.Summary.{IsSummary}
use nyse_pillar_market_data.TradeLedger.{
  TradeLedger, empty, get_or_create, store, append_raw, recompute, record_in, cancel_in, replace_in,
  adjust_in, record_trade, cancel_trade, replace_trade, adjust_volume, get_daily_stats,
}
use nyse_pillar_market_data.TradeLedger.Calls.{
  Call, records, cancels, adjusts, replaces, step, run, IsValid, AreAllowed, run-IsValid,
  empty-IsValid, get_daily_stats-run-IsSummary, get_or_create-step_ne,
}
use nyse_pillar_market_data.TradeLedger.Results.{replace_trade-eq, cancel_trade-cancel_trade}
use nyse_pillar_market_data.TradeLedger.Restated.{
  adjust_volume-not-IsSummary, adjust_in-eq-recompute,
}

abbrev aapl : Text
aapl = b'A' ∷ b'A' ∷ b'P' ∷ b'L' ∷ []

abbrev ibm : Text
ibm = b'I' ∷ b'B' ∷ b'M' ∷ []

-- Two trades, the first replaced; its successor is restated.
abbrev calls : List (Call Ticks)
calls =
    records aapl 1 100 40
    ∷ records aapl 2 104 10
    ∷ replaces aapl 1 3 102 30
    ∷ adjusts aapl 3 25
    ∷ cancels aapl 9
    ∷ []

abbrev after : TradeLedger Ticks
after = run empty calls

calls_stats :
    (after.failures ≡ 1)
    × (get_daily_stats aapl after ≡ record {
      open_price = some 104;
      high_price = some 104;
      low_price = some 102;
      close_price = some 102;
      total_volume = 35;
    })
unfolding run step record_trade cancel_trade replace_trade adjust_volume store append_raw recompute
    record_in cancel_in replace_in adjust_in get_daily_stats find assign text_beq recompute_loop
    fold_into_stats as_u64 as_i64 ◌+ℤ◌ ◌-ℤ◌
calls_stats = (refl, refl)

calls-AreAllowed : AreAllowed empty calls
unfolding run step record_trade cancel_trade replace_trade adjust_volume store append_raw recompute
    record_in cancel_in replace_in adjust_in find assign text_beq recompute_loop fold_into_stats
calls-AreAllowed =
    (omega arith, (omega arith, (omega arith, ((omega arith, λ i e. ground arith), (tt, tt)))))

get_daily_stats-run-IsSummary_example :
    IsSummary (get_or_create aapl after).log (get_daily_stats aapl after)
get_daily_stats-run-IsSummary_example =
    get_daily_stats-run-IsSummary Ticks-IsOrdered calls aapl calls-AreAllowed

after-IsValid : IsValid after
after-IsValid = run-IsValid empty calls calls-AreAllowed empty-IsValid

-- Trade 1 is cancelled.
abbrev replaced : TradeRecord Ticks
replaced = record { price = 100; volume = 40; cancelled = true }

known :
    (find 1 (get_or_create aapl after).by_id ≡ some 0)
    × (get_elem? (get_or_create aapl after).log 0 ≡ some replaced)
    × (find 2 (get_or_create aapl after).by_id ≡ some 1)
    × (is_cancelled (get_or_create aapl after).log 1 ≡ false)
unfolding run step record_trade cancel_trade replace_trade adjust_volume store append_raw recompute
    record_in cancel_in replace_in adjust_in get_daily_stats find assign text_beq recompute_loop
    fold_into_stats
known = (refl, refl, refl, refl)

adjust_volume-not-IsSummary_example :
    let t = adjust_volume aapl 1 60 after in
    (t.1 ≡ true) × ¬ IsSummary (get_or_create aapl t.0).log (get_daily_stats aapl t.0)
adjust_volume-not-IsSummary_example =
    adjust_volume-not-IsSummary aapl 1 60 0 after {r = replaced} after-IsValid known.0 known.1 refl
      (omega arith) (λ e. omega arith)

adjust_in-eq-recompute_example :
    let l = get_or_create aapl after in
    adjust_in 2 60 l ≡ (recompute (record l { log = modify l.log 1 (with_volume 60) }), true)
adjust_in-eq-recompute_example =
    adjust_in-eq-recompute 2 60 1 (get_or_create aapl after) (after-IsValid.every aapl) known.2
      known.3 (omega arith)

replace_trade-eq_example :
    replace_trade aapl 2 5 101 10 after
    ≡ (record_trade aapl 5 101 10 (cancel_trade aapl 2 after).0, (cancel_trade aapl 2 after).1)
replace_trade-eq_example = replace_trade-eq aapl 2 5 101 10 after after-IsValid

cancel_trade-cancel_trade_example :
    let once = (cancel_trade aapl 2 after).0 in
    let twice = cancel_trade aapl 2 once in
    (twice.1 ≡ false)
    × (twice.0.failures ≡ add64 once.failures 1)
    × ((s : Text) → get_or_create s twice.0 ≡ get_or_create s once)
cancel_trade-cancel_trade_example = cancel_trade-cancel_trade aapl 2 after after-IsValid

get_or_create-step_ne_example :
    get_or_create ibm (step after (cancels aapl 2)) ≡ get_or_create ibm after
unfolding text_beq
get_or_create-step_ne_example = get_or_create-step_ne after (cancels aapl 2) ibm refl
