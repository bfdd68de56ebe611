-- ===== src/Stats/Cancelled.antt =====
-- Which records of a trade log are cancelled, after the log is appended to or changed.
use nyse_pillar_market_data.Prelude.{
  ℕ, zero, suc, ◌<◌, ◌≡◌, refl, true, false, List, [], ◌∷◌, ◌++◌, arith, length, modify, ◌==◌,
}
use nyse_pillar_market_data.Stats.{TradeRecord, is_cancelled}
use nyse_pillar_market_data.Stats.Edit.{with_volume, cancel}

module _ {D : Type 0} where
  pub is_cancelled-modify-cancel :
      (log : List (TradeRecord D)) (i : ℕ)
      → i < length log
      → is_cancelled (modify log i cancel) i ≡ true
  is_cancelled-modify-cancel [] i h = elim h [ ]
  is_cancelled-modify-cancel (t ∷ ts) zero h = refl
  is_cancelled-modify-cancel (t ∷ ts) (suc i) h = is_cancelled-modify-cancel ts i (omega arith)

  pub is_cancelled-append :
      (log : List (TradeRecord D)) (r : TradeRecord D) (j : ℕ)
      → j < length log
      → is_cancelled (log ++ r ∷ []) j ≡ is_cancelled log j
  is_cancelled-append [] r j h = elim h [ ]
  is_cancelled-append (x ∷ xs) r zero h = refl
  is_cancelled-append (x ∷ xs) r (suc j) h = is_cancelled-append xs r j (omega arith)

  pub is_cancelled-append_last :
      (log : List (TradeRecord D)) (r : TradeRecord D)
      → is_cancelled (log ++ r ∷ []) (length log) ≡ r.cancelled
  is_cancelled-append_last [] r = refl
  is_cancelled-append_last (x ∷ xs) r = is_cancelled-append_last xs r

  pub is_cancelled-modify_ne :
      (log : List (TradeRecord D)) (i j : ℕ) (f : TradeRecord D → TradeRecord D)
      → (i == j) ≡ false
      → is_cancelled (modify log i f) j ≡ is_cancelled log j
  is_cancelled-modify_ne [] i j f h = refl
  is_cancelled-modify_ne (x ∷ xs) zero zero f h = ground arith
  is_cancelled-modify_ne (x ∷ xs) zero (suc j) f h = refl
  is_cancelled-modify_ne (x ∷ xs) (suc i) zero f h = refl
  is_cancelled-modify_ne (x ∷ xs) (suc i) (suc j) f h =
      is_cancelled-modify_ne xs i j f (ground arith)

  pub is_cancelled-with_volume :
      (log : List (TradeRecord D)) (i j n : ℕ)
      → is_cancelled (modify log i (with_volume n)) j ≡ is_cancelled log j
  is_cancelled-with_volume [] i j n = refl
  is_cancelled-with_volume (x ∷ xs) zero zero n = refl
  is_cancelled-with_volume (x ∷ xs) zero (suc j) n = refl
  is_cancelled-with_volume (x ∷ xs) (suc i) zero n = refl
  is_cancelled-with_volume (x ∷ xs) (suc i) (suc j) n = is_cancelled-with_volume xs i j n
