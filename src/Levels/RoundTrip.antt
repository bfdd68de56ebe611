-- ===== src/Levels/RoundTrip.antt =====
-- Adding volume at a price and taking it off again gives the same levels.
use nyse_pillar_market_data.Prelude.{
  ℕ, ◌+◌, ◌<◌, ◌≡◌, Bool, [], ◌∷◌, none, some, arith, inl, inr, Option-cases,
}
use nyse_pillar_market_data.Prelude.Word.{u64_mod, add64}
use nyse_pillar_market_data.Double.{IsStrictWeak}
use nyse_pillar_market_data.Levels.{
  Levels, find_level, add_volume, set_volume, erase_level, take_volume, IsSorted, volume_of,
  IsPositive,
}
use nyse_pillar_market_data.Levels.Laws.{before_asym, same_refl, IsAhead-find_level}

module _ {D : Type 0} (before : D → D → Bool) (laws : IsStrictWeak before) where
  add_volume-new :
      (p : D) (v : ℕ) (l : Levels D)
      → find_level before p l ≡ none
      → (find_level before p (add_volume before p v l) ≡ some (add64 0 v))
        × (erase_level before p (add_volume before p v l) ≡ l)
  unfolding find_level add_volume erase_level
  add_volume-new p v [] h = ground (arith, same_refl before laws p)
  add_volume-new p v ((q, w) ∷ l) h = ground (arith, same_refl before laws p, add_volume-new p v l)

  add_volume-old :
      (p : D) (v w : ℕ) (l : Levels D)
      → IsSorted before l
      → find_level before p l ≡ some w
      → (find_level before p (add_volume before p v l) ≡ some (add64 w v))
        × (set_volume before p w (add_volume before p v l) ≡ l)
  unfolding find_level add_volume set_volume
  add_volume-old p v w [] s h = ground arith
  add_volume-old p v w ((q, u) ∷ l) s h = ground (
    arith,
    same_refl before laws p,
    before_asym before laws p q,
    IsAhead-find_level before laws q p l s.0,
    add_volume-old p v w l s.1,
  )

  find_level-pos :
      (p : D) (w : ℕ) (l : Levels D) → IsPositive l → find_level before p l ≡ some w → 0 < w
  unfolding find_level
  find_level-pos p w [] a h = ground arith
  find_level-pos p w ((q, u) ∷ l) a h = ground (arith, find_level-pos p w l a.1)

  -- On levels in price order, none of them empty, taking off a volume that was just added at a price
  -- succeeds and gives the same levels, if the volume at the price stays a 64-bit word. The order of prices
  -- is a strict weak order.
  pub take_volume-add_volume :
      (p : D) (v : ℕ) (l : Levels D)
      → IsSorted before l
      → IsPositive l
      → volume_of (find_level before p l) + v < u64_mod
      → take_volume before p v (add_volume before p v l) ≡ some l
  unfolding take_volume
  take_volume-add_volume p v l s a h = elim (Option-cases (find_level before p l)) [
    | inl e ↦ ground (arith, add_volume-new p v l)
    | inr (w, e) ↦
        let old = add_volume-old p v w l s e in
        let pos = find_level-pos p w l a e in
        let small : w + v < u64_mod = ground (arith, e) in
        let sum : add64 w v ≡ w + v = omega arith in rw (old.0, take_volume) (ground (arith, old.1))
  ]
