-- ===== src/Stats/Summary.antt =====
-- What the statistics of a trade log should be, said without a loop, and that the loop gives it.
use mathlib.Core.List.{append-nil, append_assoc}
use nyse_pillar_market_data.Prelude.{
  ℕ, ◌+◌, ◌%◌, ◌≡◌, refl, ap, sym, ◌⊎◌, inl, inr, Bool, true, false, List, [], ◌∷◌, ◌++◌, Option,
  none, some, All, arith, Option-cases, ◌∙◌, if◌then◌else◌,
}
use nyse_pillar_market_data.Prelude.Word.{u64_mod}
use nyse_pillar_market_data.Double.{
  Double, less, greater, IsStrictWeak, IsOrdered, greater-IsStrictWeak,
}
use nyse_pillar_market_data.Stats.{
  DailyStats, TradeRecord, no_stats, or_first, or_better, fold_into_stats, recompute_loop,
}

module _ {D : Type 0} where
  -- The trades that are not cancelled, oldest first.
  abbrev pub live : List (TradeRecord D) → List (TradeRecord D)
  live [] = []
  live (t ∷ ts) = if t.cancelled then live ts else t ∷ live ts

  abbrev pub first_price : List (TradeRecord D) → Option D
  first_price [] = none
  first_price (t ∷ ts) = some t.price

  abbrev pub last_price : List (TradeRecord D) → Option D
  last_price [] = none
  last_price (t ∷ ts) = elim (last_price ts) [ none ↦ some t.price | some p ↦ some p ]

  abbrev pub sum_volume : List (TradeRecord D) → ℕ
  sum_volume [] = 0
  sum_volume (t ∷ ts) = t.volume + sum_volume ts

  -- Some trade has this price.
  abbrev pub Has : D → List (TradeRecord D) → Type 0
  Has p [] = ⊥
  Has p (t ∷ ts) = (t.price ≡ p) ⊎ Has p ts

  -- A price of the list that no price of the list beats, or none for the empty list.
  abbrev pub IsBest : (D → D → Bool) → Option D → List (TradeRecord D) → Type 0
  IsBest beats none ts = ts ≡ []
  IsBest beats (some p) ts = Has p ts × All (λ t. beats t.price p ≡ false) ts

-- The first, highest, lowest and last price of the live trades, and their volume modulo 2^64.
pub record IsSummary {D : Type 0} ⦃d : Double D⦄ (log : List (TradeRecord D)) (s : DailyStats D)
    : Type 0 where
  pub opening : s.open_price ≡ first_price (live log)
  pub highest : IsBest (greater ⦃d = d⦄) s.high_price (live log)
  pub lowest : IsBest (less ⦃d = d⦄) s.low_price (live log)
  pub closing : s.close_price ≡ last_price (live log)
  pub volume : s.total_volume ≡ sum_volume (live log) % u64_mod

module _ {D : Type 0} where
  live-append : (xs ys : List (TradeRecord D)) → live (xs ++ ys) ≡ live xs ++ live ys
  live-append [] ys = refl
  live-append (x ∷ xs) ys = ground (arith, live-append xs ys)

  first_price-snoc :
      (xs : List (TradeRecord D)) (t : TradeRecord D)
      → first_price (xs ++ t ∷ []) ≡ or_first (first_price xs) t.price
  first_price-snoc [] t = refl
  first_price-snoc (x ∷ xs) t = refl

  last_price-snoc :
      (xs : List (TradeRecord D)) (t : TradeRecord D) → last_price (xs ++ t ∷ []) ≡ some t.price
  last_price-snoc [] t = refl
  last_price-snoc (x ∷ xs) t = rw (last_price-snoc xs t)

  sum_volume-snoc :
      (xs : List (TradeRecord D)) (t : TradeRecord D)
      → sum_volume (xs ++ t ∷ []) ≡ sum_volume xs + t.volume
  sum_volume-snoc [] t = omega arith
  sum_volume-snoc (x ∷ xs) t = omega (arith, sum_volume-snoc xs t)

  Has-snoc_old :
      (p : D) (xs : List (TradeRecord D)) (t : TradeRecord D) → Has p xs → Has p (xs ++ t ∷ [])
  Has-snoc_old p [] t h = absurd h
  Has-snoc_old p (x ∷ xs) t (inl e) = inl e
  Has-snoc_old p (x ∷ xs) t (inr h) = inr (Has-snoc_old p xs t h)

  Has-snoc_new : (xs : List (TradeRecord D)) (t : TradeRecord D) → Has t.price (xs ++ t ∷ [])
  Has-snoc_new [] t = inl refl
  Has-snoc_new (x ∷ xs) t = inr (Has-snoc_new xs t)

  module _ (beats : D → D → Bool) (laws : IsStrictWeak beats) where
    unbeaten-snoc :
        (p q : D) (xs : List (TradeRecord D)) (t : TradeRecord D)
        → All (λ x. beats x.price p ≡ false) xs
        → (beats q p ≡ true) ⊎ (q ≡ p)
        → beats t.price q ≡ false
        → All (λ x. beats x.price q ≡ false) (xs ++ t ∷ [])
    unbeaten-snoc p q [] t a h k = (k, tt)
    unbeaten-snoc p q (x ∷ xs) t a h k =
        (ground (arith, laws.before_trans x.price q p, a.0), unbeaten-snoc p q xs t a.1 h k)

    IsBest-snoc :
        (o : Option D) (xs : List (TradeRecord D)) (t : TradeRecord D)
        → IsBest beats o xs
        → IsBest beats (or_better beats o t.price) (xs ++ t ∷ [])
    IsBest-snoc none [] t h = (inl refl, (laws.irrefl t.price, tt))
    IsBest-snoc none (x ∷ xs) t h = ground arith
    IsBest-snoc (some p) xs t (has, best) = decide (beats t.price p) refl
      where
        decide :
            (b : Bool)
            → beats t.price p ≡ b
            → IsBest beats (if b then some t.price else some p) (xs ++ t ∷ [])
        decide true e =
            (Has-snoc_new xs t, unbeaten-snoc p t.price xs t best (inl e) (laws.irrefl t.price))
        decide false e = (Has-snoc_old p xs t has, unbeaten-snoc p p xs t best (inr refl) e)

module _ {D : Type 0} ⦃d : Double D⦄ (laws : IsOrdered D) where
  live-snoc_cancelled :
      (log : List (TradeRecord D)) (t : TradeRecord D)
      → t.cancelled ≡ true
      → live (log ++ t ∷ []) ≡ live log
  live-snoc_cancelled log t c = rw (live-append log (t ∷ []), c) (append-nil (live log))

  live-snoc_live :
      (log : List (TradeRecord D)) (t : TradeRecord D)
      → t.cancelled ≡ false
      → live (log ++ t ∷ []) ≡ live log ++ t ∷ []
  live-snoc_live log t c = rw (live-append log (t ∷ []), c)

  skip-IsSummary :
      (log : List (TradeRecord D)) (t : TradeRecord D) (s : DailyStats D)
      → t.cancelled ≡ true
      → IsSummary log s
      → IsSummary (log ++ t ∷ []) s
  skip-IsSummary log t s c v =
      let same : live (log ++ t ∷ []) ≡ live log = live-snoc_cancelled log t c in
      record {
        opening = rw same v.opening;
        highest = rw same v.highest;
        lowest = rw same v.lowest;
        closing = rw same v.closing;
        volume = rw same v.volume;
      }

  fold_into_stats-IsSummary :
      (log : List (TradeRecord D)) (t : TradeRecord D) (s : DailyStats D)
      → t.cancelled ≡ false
      → IsSummary log s
      → IsSummary (log ++ t ∷ []) (fold_into_stats s t.price t.volume)
  unfolding fold_into_stats
  fold_into_stats-IsSummary log t s c v =
      let more : live (log ++ t ∷ []) ≡ live log ++ t ∷ [] = live-snoc_live log t c in
      record {
        opening = rw (more, first_price-snoc (live log) t) (ap (λ o. or_first o t.price) v.opening);
        highest =
            rw more
              (IsBest-snoc greater (greater-IsStrictWeak laws) s.high_price (live log) t v.highest);
        lowest = rw more (IsBest-snoc less laws s.low_price (live log) t v.lowest);
        closing = rw more (sym (last_price-snoc (live log) t));
        volume = rw (more, sum_volume-snoc (live log) t, v.volume) (omega arith);
      }

  step-IsSummary :
      (log : List (TradeRecord D)) (t : TradeRecord D) (s : DailyStats D) (b : Bool)
      → t.cancelled ≡ b
      → IsSummary log s
      → IsSummary (log ++ t ∷ []) (if b then s else fold_into_stats s t.price t.volume)
  step-IsSummary log t s true c v = skip-IsSummary log t s c v
  step-IsSummary log t s false c v = fold_into_stats-IsSummary log t s c v

  recompute_loop-from :
      (done todo : List (TradeRecord D)) (s : DailyStats D)
      → IsSummary done s
      → IsSummary (done ++ todo) (recompute_loop s todo)
  unfolding recompute_loop
  recompute_loop-from done [] s v = rw (append-nil done) v
  recompute_loop-from done (t ∷ ts) s v =
      rw (← append_assoc done (t ∷ []) ts)
        (recompute_loop-from (done ++ t ∷ []) ts _ (step-IsSummary done t s t.cancelled refl v))

  -- The loop summarises the log.
  pub recompute_loop-IsSummary :
      (log : List (TradeRecord D)) → IsSummary log (recompute_loop no_stats log)
  recompute_loop-IsSummary log =
      recompute_loop-from [] log no_stats
        (record { opening = refl; highest = refl; lowest = refl; closing = refl; volume = refl })

module _ {D : Type 0} ⦃d : Double D⦄ where
  IsBest-some :
      (beats : D → D → Bool) (o : Option D) (t : TradeRecord D) (ts : List (TradeRecord D))
      → IsBest beats o (t ∷ ts)
      → (p : D) × (o ≡ some p)
  IsBest-some beats none t ts h = absurd (ground arith)
  IsBest-some beats (some p) t ts h = (p, refl)

  last_price-some :
      (t : TradeRecord D) (ts : List (TradeRecord D)) → (p : D) × (last_price (t ∷ ts) ≡ some p)
  last_price-some t ts = elim (Option-cases (last_price ts)) [
    | inl e ↦ (t.price, rw (e, last_price) refl)
    | inr (p, e) ↦ (p, rw (e, last_price) refl)
  ]

  -- With a first price there are all four.
  pub IsSummary-defined :
      (log : List (TradeRecord D)) (s : DailyStats D) (p : D)
      → IsSummary log s
      → s.open_price ≡ some p
      → ((h : D) × (s.high_price ≡ some h))
        × ((l : D) × (s.low_price ≡ some l))
        × ((c : D) × (s.close_price ≡ some c))
  IsSummary-defined log s p v e =
      defined (live log) (sym v.opening ∙ e) v.highest v.lowest v.closing
    where
      defined :
          (ts : List (TradeRecord D))
          → first_price ts ≡ some p
          → IsBest (greater ⦃d = d⦄) s.high_price ts
          → IsBest (less ⦃d = d⦄) s.low_price ts
          → s.close_price ≡ last_price ts
          → ((h : D) × (s.high_price ≡ some h))
            × ((l : D) × (s.low_price ≡ some l))
            × ((c : D) × (s.close_price ≡ some c))
      defined [] f h l c = absurd (ground arith)
      defined (t ∷ ts) f h l c =
          let (q, last) = last_price-some t ts in
          (IsBest-some _ s.high_price t ts h, IsBest-some _ s.low_price t ts l, (q, c ∙ last))
