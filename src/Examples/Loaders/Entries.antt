-- ===== src/Examples/Loaders/Entries.antt =====
-- How the trades of a file change with one more line: a trade goes to the end, and a cancel marks the last
-- trade with its id.
use nyse_pillar_market_data.Prelude.{
  ℕ, suc, ◌≡◌, refl, Bool, true, false, not, ◌&&◌, ◌||◌, List, [], ◌∷◌, ◌++◌, Option, none, some,
  Text, text_eq, arith, ◌==◌, length, modify, if◌then◌else◌,
}
use nyse_pillar_market_data.Stats.{TradeRecord}
use nyse_pillar_market_data.Stats.Edit.{cancel}
use nyse_pillar_market_data.Examples.Loaders.Events.{
  TradeEvent, trades, cancels, is_cancelled_by, entries_of, records,
}

abbrev pub is_there : Option ℕ → Bool
is_there none = false
is_there (some i) = true

module _ {D : Type 0} where
  -- The index of the last trade with an id.
  abbrev pub last_index : ℕ → List (ℕ × TradeRecord D) → Option ℕ
  last_index k [] = none
  last_index k (e ∷ es) = elim (last_index k es) [
    | some i ↦ some (suc i)
    | none ↦ if e.0 == k then some 0 else none
  ]

  -- The last trade with an id marked.
  abbrev pub cancel_last : ℕ → List (ℕ × TradeRecord D) → List (ℕ × TradeRecord D)
  cancel_last k [] = []
  cancel_last k (e ∷ es) =
      let rest = cancel_last k es in
      if is_there (last_index k es)
      then e ∷ rest
      else if e.0 == k
      then (e.0, cancel e.1) ∷ es
      else e ∷ es

  pub last_index-append :
      (xs : List (ℕ × TradeRecord D)) (k j : ℕ) (r : TradeRecord D)
      → last_index j (xs ++ (k, r) ∷ []) ≡ (if k == j then some (length xs) else last_index j xs)
  last_index-append [] k j r = ground arith
  last_index-append (x ∷ xs) k j r = ground (arith, last_index-append xs k j r)

  pub last_index-cancel_last :
      (xs : List (ℕ × TradeRecord D)) (k j : ℕ) → last_index j (cancel_last k xs) ≡ last_index j xs
  last_index-cancel_last [] k j = refl
  last_index-cancel_last (x ∷ xs) k j = ground (arith, last_index-cancel_last xs k j)

  cancel_last-absent :
      (xs : List (ℕ × TradeRecord D)) (k : ℕ)
      → is_there (last_index k xs) ≡ false
      → cancel_last k xs ≡ xs
  cancel_last-absent [] k h = refl
  cancel_last-absent (x ∷ xs) k h = ground (arith, cancel_last-absent xs k)

  pub records-append :
      (xs ys : List (ℕ × TradeRecord D)) → records (xs ++ ys) ≡ records xs ++ records ys
  records-append [] ys = refl
  records-append (x ∷ xs) ys = ground (arith, records-append xs ys)

  pub length-records : (xs : List (ℕ × TradeRecord D)) → length (records xs) ≡ length xs
  length-records [] = refl
  length-records (x ∷ xs) = ground (arith, length-records xs)

  -- On the records alone, the trade at the last index is marked.
  pub records-cancel_last :
      (xs : List (ℕ × TradeRecord D)) (k : ℕ)
      → records (cancel_last k xs)
        ≡ (elim (last_index k xs) [ none ↦ records xs | some i ↦ modify (records xs) i cancel ])
  records-cancel_last [] k = refl
  records-cancel_last (x ∷ xs) k = ground (arith, records-cancel_last xs k, cancel_last-absent xs k)

  is_cancelled_by-trade :
      (es : List (TradeEvent D)) (s symbol : Text) (k id : ℕ) (p : D) (v : ℕ)
      → is_cancelled_by s k (es ++ trades symbol id p v ∷ []) ≡ is_cancelled_by s k es
  unfolding is_cancelled_by
  is_cancelled_by-trade [] s symbol k id p v = ground arith
  is_cancelled_by-trade (trades x j q w ∷ es) s symbol k id p v =
      ground (arith, is_cancelled_by-trade es s symbol k id p v)
  is_cancelled_by-trade (cancels x j ∷ es) s symbol k id p v =
      ground (arith, is_cancelled_by-trade es s symbol k id p v)

  is_cancelled_by-cancel :
      (es : List (TradeEvent D)) (s symbol : Text) (k id : ℕ)
      → is_cancelled_by s k (es ++ cancels symbol id ∷ []) ≡ (
          is_cancelled_by s k es
          || (text_eq.beq symbol s && (id == k) && not (is_there (last_index k (entries_of s es)))))
  unfolding is_cancelled_by entries_of
  is_cancelled_by-cancel [] s symbol k id = ground arith
  is_cancelled_by-cancel (trades x j q w ∷ es) s symbol k id =
      ground (arith, is_cancelled_by-cancel es s symbol k id)
  is_cancelled_by-cancel (cancels x j ∷ es) s symbol k id =
      ground (arith, is_cancelled_by-cancel es s symbol k id)

  pub entries_of-trade :
      (es : List (TradeEvent D)) (s symbol : Text) (id : ℕ) (p : D) (v : ℕ)
      → entries_of s (es ++ trades symbol id p v ∷ []) ≡ (
          if text_eq.beq symbol s
          then entries_of s es ++ (id, record { price = p; volume = v; cancelled = false }) ∷ []
          else entries_of s es)
  unfolding entries_of is_cancelled_by
  entries_of-trade [] s symbol id p v = ground arith
  entries_of-trade (trades x j q w ∷ es) s symbol id p v =
      ground
        (arith, entries_of-trade es s symbol id p v, is_cancelled_by-trade es s symbol j id p v)
  entries_of-trade (cancels x j ∷ es) s symbol id p v =
      ground (arith, entries_of-trade es s symbol id p v)

  pub entries_of-cancel :
      (es : List (TradeEvent D)) (s symbol : Text) (id : ℕ)
      → entries_of s (es ++ cancels symbol id ∷ [])
        ≡ (if text_eq.beq symbol s then cancel_last id (entries_of s es) else entries_of s es)
  unfolding entries_of
  entries_of-cancel [] s symbol id = ground arith
  entries_of-cancel (trades x j q w ∷ es) s symbol id = ground (
    arith,
    entries_of-cancel es s symbol id,
    is_cancelled_by-cancel es s symbol j id,
    cancel_last-absent (entries_of s es) id,
  )
  entries_of-cancel (cancels x j ∷ es) s symbol id =
      ground (arith, entries_of-cancel es s symbol id)
