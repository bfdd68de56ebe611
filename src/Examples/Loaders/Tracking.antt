-- ===== src/Examples/Loaders/Tracking.antt =====
-- The ledger of `LoadTrades` is the log of the file's trades.
use mathlib.Core.List.{append-nil, append_assoc}
use nyse_pillar_market_data.Prelude.{
  ℕ, zero, suc, ◌-◌, ◌≡◌, refl, sym, ap, ◌∙◌, true, false, List, [], ◌∷◌, ◌++◌, none, some, Text,
  text_eq, nat_eq, inl, inr, Option-cases, Bool-cases, arith, length, length-append, modify,
}
use nyse_pillar_market_data.Double.{Double}
use nyse_pillar_market_data.Map.{find}
use nyse_pillar_market_data.Map.Laws.{find-assign}
use nyse_pillar_market_data.Csv.Fields.{StdNumbers}
use nyse_pillar_market_data.Stats.{TradeRecord, is_cancelled}
use nyse_pillar_market_data.Stats.Edit.{cancel}
use nyse_pillar_market_data.TradeLedger.{
  SymbolLedger, TradeLedger, empty, get_or_create, recompute, record_in, cancel_in, record_trade,
  cancel_trade,
}
use nyse_pillar_market_data.TradeLedger.Calls.{IsValid, get_or_create-store}
use nyse_pillar_market_data.TradeLedger.Results.{replace_trade-eq}
use nyse_pillar_market_data.Examples.Loaders.{load_trade_line}
use nyse_pillar_market_data.Examples.Loaders.Events.{
  TradeEvent, trades, cancels, line_events, entries_of, records,
}
use nyse_pillar_market_data.Examples.Loaders.Entries.{
  last_index, cancel_last, last_index-append, last_index-cancel_last, records-append,
  length-records, records-cancel_last, entries_of-trade, entries_of-cancel,
}

module _ {D : Type 0} where
  -- The log is the records, and the index knows the last trade of each id.
  pub record Tracks (xs : List (ℕ × TradeRecord D)) (l : SymbolLedger D) : Type 0 where
    pub logged : l.log ≡ records xs
    pub indexed : (k : ℕ) → find k l.by_id ≡ last_index k xs

  modify-cancelled :
      (log : List (TradeRecord D)) (i : ℕ) → is_cancelled log i ≡ true → modify log i cancel ≡ log
  modify-cancelled [] i h = refl
  modify-cancelled (t ∷ ts) zero h = ground arith
  modify-cancelled (t ∷ ts) (suc i) h = ap (λ l. t ∷ l) (modify-cancelled ts i h)

module _ {D : Type 0} ⦃d : Double D⦄ where
  record_in-Tracks :
      (xs : List (ℕ × TradeRecord D)) (l : SymbolLedger D) (id : ℕ) (p : D) (v : ℕ)
      → Tracks xs l
      → Tracks
          (xs ++ (id, record { price = p; volume = v; cancelled = false }) ∷ [])
          (record_in id p v l)
  unfolding record_in
  record_in-Tracks xs l id p v h =
      let r : TradeRecord D = record { price = p; volume = v; cancelled = false } in
      let grown = length-append l.log (r ∷ []) in
      let same = ap length h.logged ∙ length-records xs in
      record {
        logged = rw (records-append xs ((id, r) ∷ []), h.logged) refl;
        indexed = λ k. ground (
          arith,
          find-assign id k (length (l.log ++ r ∷ []) - 1) l.by_id,
          last_index-append xs id k r,
          h.indexed k,
          grown,
          same,
        );
      }

  cancel_in-lem :
      (id : ℕ) (l : SymbolLedger D)
      → ((cancel_in id l).0.log
          ≡ (elim (find id l.by_id) [ none ↦ l.log | some i ↦ modify l.log i cancel ]))
        × ((cancel_in id l).0.by_id ≡ l.by_id)
  unfolding cancel_in recompute
  cancel_in-lem id l = elim (Option-cases (find id l.by_id)) [
    | inl e ↦ ground arith
    | inr (i, e) ↦ ground (arith, modify-cancelled l.log i)
  ]

  cancel_in-Tracks :
      (xs : List (ℕ × TradeRecord D)) (l : SymbolLedger D) (id : ℕ)
      → Tracks xs l
      → Tracks (cancel_last id xs) (cancel_in id l).0
  cancel_in-Tracks xs l id h =
      let (log, by_id) = cancel_in-lem id l in
      record {
        logged = ground (arith, log, h.logged, h.indexed id, records-cancel_last xs id);
        indexed = λ k. rw by_id (h.indexed k ∙ sym (last_index-cancel_last xs id k));
      }

  -- The ledger of each symbol tracks its trades.
  pub record IsTracking (es : List (TradeEvent D)) (t : TradeLedger D) : Type 0 where
    pub each : (s : Text) → Tracks (entries_of s es) (get_or_create s t)

  pub empty-IsTracking : IsTracking [] empty
  unfolding entries_of find
  empty-IsTracking = record { each = λ s. record { logged = refl; indexed = λ k. refl } }

  record_trade-IsTracking :
      (es : List (TradeEvent D)) (t : TradeLedger D) (symbol : Text) (id : ℕ) (p : D) (v : ℕ)
      → IsTracking es t
      → IsTracking (es ++ trades symbol id p v ∷ []) (record_trade symbol id p v t)
  unfolding record_trade
  record_trade-IsTracking es t symbol id p v h = record {
    each = λ s.
        rw
          (
            entries_of-trade es s symbol id p v,
            get_or_create-store s symbol (record_in id p v (get_or_create symbol t)) true t,
          )
          (elim (Bool-cases (text_eq.beq symbol s)) [
            | inl e ↦
                rw (e, (text_eq.beq_iff symbol s).0 e)
                  (record_in-Tracks (entries_of s es) (get_or_create s t) id p v (h.each s))
            | inr e ↦ rw e (h.each s)
          ]);
  }

  cancel_trade-IsTracking :
      (es : List (TradeEvent D)) (t : TradeLedger D) (symbol : Text) (id : ℕ)
      → IsTracking es t
      → IsTracking (es ++ cancels symbol id ∷ []) (cancel_trade symbol id t).0
  unfolding cancel_trade
  cancel_trade-IsTracking es t symbol id h = record {
    each = λ s.
        rw
          (
            entries_of-cancel es s symbol id,
            get_or_create-store s symbol (cancel_in id (get_or_create symbol t)).0
                (cancel_in id (get_or_create symbol t)).1 t,
          )
          (elim (Bool-cases (text_eq.beq symbol s)) [
            | inl e ↦
                rw (e, (text_eq.beq_iff symbol s).0 e)
                  (cancel_in-Tracks (entries_of s es) (get_or_create s t) id (h.each s))
            | inr e ↦ rw e (h.each s)
          ]);
  }

  -- The events on a ledger, one after the other.
  abbrev apply_all : TradeLedger D → List (TradeEvent D) → TradeLedger D
  apply_all t [] = t
  apply_all t (trades symbol id p v ∷ es) = apply_all (record_trade symbol id p v t) es
  apply_all t (cancels symbol id ∷ es) = apply_all (cancel_trade symbol id t).0 es

  apply_all-IsTracking :
      (fs es : List (TradeEvent D)) (t : TradeLedger D)
      → IsTracking es t
      → IsTracking (es ++ fs) (apply_all t fs)
  apply_all-IsTracking [] es t h = rw (append-nil es) h
  apply_all-IsTracking (trades symbol id p v ∷ fs) es t h =
      rw (← append_assoc es (trades symbol id p v ∷ []) fs) (
        apply_all-IsTracking fs (es ++ trades symbol id p v ∷ []) (record_trade symbol id p v t)
          (record_trade-IsTracking es t symbol id p v h))
  apply_all-IsTracking (cancels symbol id ∷ fs) es t h =
      rw (← append_assoc es (cancels symbol id ∷ []) fs) (
        apply_all-IsTracking fs (es ++ cancels symbol id ∷ []) (cancel_trade symbol id t).0
          (cancel_trade-IsTracking es t symbol id h))

module _ {D : Type 0} ⦃d : Double D⦄ (lib : StdNumbers D) where
  load_trade_line-eq :
      (t : TradeLedger D) (line : Text)
      → IsValid t
      → load_trade_line lib line t ≡ apply_all t (line_events lib line)
  unfolding load_trade_line line_events
  load_trade_line-eq t line v =
      grind (arith, λ (s : Text) (o : ℕ) (n : ℕ) (p : D) (w : ℕ). replace_trade-eq s o n p w t v)

  -- A line of the file, on a ledger that is in step.
  pub load_trade_line-IsTracking :
      (es : List (TradeEvent D)) (t : TradeLedger D) (line : Text)
      → IsValid t
      → IsTracking es t
      → IsTracking (es ++ line_events lib line) (load_trade_line lib line t)
  load_trade_line-IsTracking es t line v h =
      rw (load_trade_line-eq t line v) (apply_all-IsTracking (line_events lib line) es t h)
