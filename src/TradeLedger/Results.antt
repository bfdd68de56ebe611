-- ===== src/TradeLedger/Results.antt =====
-- What the calls of `TradeLedger` answer, their failures, and how they combine.
use nyse_pillar_market_data.Prelude.{
  ℕ, ◌≡◌, refl, ap, true, false, none, some, Text, text_eq, nat_eq, arith, inl, inr, Option-cases,
  modify,
}
use nyse_pillar_market_data.Prelude.Word.{add64}
use nyse_pillar_market_data.Double.{Double}
use nyse_pillar_market_data.Map.{find, get_or}
use nyse_pillar_market_data.Map.Laws.{assign-assign, find-AllValues}
use nyse_pillar_market_data.Stats.Cancelled.{is_cancelled-modify-cancel}
use nyse_pillar_market_data.Stats.{is_cancelled}
use nyse_pillar_market_data.Stats.Edit.{cancel}
use nyse_pillar_market_data.TradeLedger.{
  SymbolLedger, TradeLedger, empty_ledger, get_or_create, store, find_live, recompute, record_in,
  cancel_in, record_trade, cancel_trade, replace_trade,
}
use nyse_pillar_market_data.TradeLedger.Sync.{IsSynced, replace_in-eq}
use nyse_pillar_market_data.TradeLedger.Calls.{IsValid, get_or_create-store_self}

module _ {D : Type 0} ⦃d : Double D⦄ where
  -- After a cancel, successful or not, the id is not live.
  find_live-cancel_in :
      (id : ℕ) (l : SymbolLedger D) → IsSynced l → find_live (cancel_in id l).0 id ≡ none
  unfolding cancel_in recompute
  find_live-cancel_in id l v = elim (Option-cases (find_live l id)) [
    | inl e ↦ rw (e, cancel_in) e
    | inr (i, e) ↦
        let there : find id l.by_id ≡ some i = ground arith in
        let now : is_cancelled (modify l.log i cancel) i ≡ true =
          is_cancelled-modify-cancel l.log i (find-AllValues _ id l.by_id v.indexed there) in
        rw (e, cancel_in) (ground (arith, there, now))
  ]

  cancel_in-refused :
      (id : ℕ) (l : SymbolLedger D) → find_live l id ≡ none → cancel_in id l ≡ (l, false)
  unfolding cancel_in
  cancel_in-refused id l e = rw (e, cancel_in)

  -- In a ledger that is in step with its logs, a trade can be cancelled only once: cancelling an id
  -- a second time answers false, raises the failure counter by one (modulo 2^64) and leaves the
  -- ledger of every symbol as it was.
  pub cancel_trade-cancel_trade :
      (symbol : Text) (id : ℕ) (t : TradeLedger D)
      → IsValid t
      → let once = (cancel_trade symbol id t).0 in
        let twice = cancel_trade symbol id once in
        (twice.1 ≡ false)
        × (twice.0.failures ≡ add64 once.failures 1)
        × ((s : Text) → get_or_create s twice.0 ≡ get_or_create s once)
  unfolding cancel_trade
  cancel_trade-cancel_trade symbol id t v =
      let l = (cancel_in id (get_or_create symbol t)).0 in
      let fine = (cancel_in id (get_or_create symbol t)).1 in
      let once = store symbol l fine t in
      let same : get_or_create symbol once ≡ l = get_or_create-store_self symbol l fine t in
      let refused : cancel_in id (get_or_create symbol once) ≡ (l, false) = rw same (
        cancel_in-refused id l
          (find_live-cancel_in id (get_or_create symbol t) (v.every symbol))) in
      rw refused (refl, refl, λ s. ap (get_or s empty_ledger) (assign-assign symbol l l t.ledgers))

  -- In a ledger that is in step with its logs, `ReplaceTrade` is `CancelTrade` of the old id followed
  -- by `RecordTrade` of the new one, with the answer of the cancel; so the new trade is recorded also
  -- where the old one is unknown or already cancelled.
  pub replace_trade-eq :
      (symbol : Text) (old_id new_id : ℕ) (price : D) (volume : ℕ) (t : TradeLedger D)
      → IsValid t
      → replace_trade symbol old_id new_id price volume t ≡ (
        record_trade symbol new_id price volume (cancel_trade symbol old_id t).0,
        (cancel_trade symbol old_id t).1,
      )
  unfolding replace_trade record_trade cancel_trade
  replace_trade-eq symbol old_id new_id price volume t v =
      let c = cancel_in old_id (get_or_create symbol t) in
      let l = record_in new_id price volume c.0 in
      rw
        (
          replace_in-eq old_id new_id price volume (get_or_create symbol t) (v.every symbol),
          get_or_create-store_self symbol c.0 c.1 t,
        )
        (ground (arith, assign-assign symbol c.0 l t.ledgers))
