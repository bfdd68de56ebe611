-- ===== src/Levels/Laws.antt =====
-- The laws of the level maps: what each operation does to the volume at every price, and that the
-- levels stay in order and without empty levels.
use nyse_pillar_market_data.Prelude.{
  ℕ, ◌+◌, ◌<◌, ◌≡◌, refl, Bool, true, false, [], ◌∷◌, none, some, arith, if◌then◌else◌,
}
use nyse_pillar_market_data.Prelude.Word.{u64_mod}
use nyse_pillar_market_data.Double.{same, IsStrictWeak}
use nyse_pillar_market_data.Levels.{
  Levels, find_level, add_volume, set_volume, erase_level, IsAhead, IsSorted, volume_of, IsPositive,
}

module _ {D : Type 0} (before : D → D → Bool) (laws : IsStrictWeak before) where
  open laws use {irrefl, before_trans, before_split}

  pub before_asym : (p q : D) → before p q ≡ true → before q p ≡ false
  before_asym p q h = ground (arith, before_trans p q p, irrefl p)

  pub same_refl : (p : D) → same before p p ≡ true
  same_refl p = ground (arith, irrefl p)

  pub same-sym : (p q : D) → same before p q ≡ same before q p
  same-sym p q = ground arith

  -- Prices that are the same are the same as the same prices.
  pub same_trans : (p q r : D) → same before p q ≡ true → same before p r ≡ same before q r
  same_trans p q r h =
      ground (arith, before_split p q r, before_split q p r, before_split r p q, before_split r q p)

  pub IsAhead-find_level :
      (p r : D) (l : Levels D)
      → IsAhead before p l
      → before p r ≡ false
      → find_level before r l ≡ none
  unfolding find_level
  IsAhead-find_level p r [] a h = refl
  IsAhead-find_level p r ((q, w) ∷ l) a h =
      ground (arith, IsAhead-find_level p r l a.1, before_split p r q)

  IsAhead-add_volume :
      (q p : D) (v : ℕ) (l : Levels D)
      → before q p ≡ true
      → IsAhead before q l
      → IsAhead before q (add_volume before p v l)
  unfolding add_volume
  IsAhead-add_volume q p v [] h a = (h, tt)
  IsAhead-add_volume q p v ((r, w) ∷ l) h a = ground (arith, IsAhead-add_volume q p v l h a.1)

  IsAhead-trans :
      (p q : D) (l : Levels D) → before p q ≡ true → IsAhead before q l → IsAhead before p l
  IsAhead-trans p q [] h a = tt
  IsAhead-trans p q ((r, w) ∷ l) h a = (before_trans p q r h a.0, IsAhead-trans p q l h a.1)

  pub add_volume-IsSorted :
      (p : D) (v : ℕ) (l : Levels D) → IsSorted before l → IsSorted before (add_volume before p v l)
  unfolding add_volume
  add_volume-IsSorted p v [] s = (tt, tt)
  add_volume-IsSorted p v ((q, w) ∷ l) s =
      ground (arith, IsAhead-trans p q l, IsAhead-add_volume q p v l, add_volume-IsSorted p v l s.1)

  pub find_level-add_volume :
      (p r : D) (v : ℕ) (l : Levels D)
      → IsSorted before l
      → volume_of (find_level before p l) + v < u64_mod
      → volume_of (find_level before r (add_volume before p v l))
        ≡ volume_of (find_level before r l) + (if same before p r then v else 0)
  unfolding find_level add_volume
  find_level-add_volume p r v [] s h = ground arith
  find_level-add_volume p r v ((q, w) ∷ l) s h = ground (
    arith,
    IsAhead-find_level q r l s.0,
    find_level-add_volume p r v l s.1,
    before_asym p q,
    before_asym q r,
    before_asym p r,
    before_split p r q,
    before_split p q r,
    before_split q p r,
    before_split q r p,
    before_split r p q,
    before_split r q p,
  )

  pub add_volume-IsPositive :
      (p : D) (v : ℕ) (l : Levels D)
      → 0 < v
      → volume_of (find_level before p l) + v < u64_mod
      → IsPositive l
      → IsPositive (add_volume before p v l)
  unfolding find_level add_volume
  add_volume-IsPositive p v [] lt h a = ground arith
  add_volume-IsPositive p v ((q, w) ∷ l) lt h a = ground (arith, add_volume-IsPositive p v l lt)

  set_volume-IsAhead :
      (q p : D) (v : ℕ) (l : Levels D)
      → IsAhead before q l
      → IsAhead before q (set_volume before p v l)
  unfolding set_volume
  set_volume-IsAhead q p v [] a = tt
  set_volume-IsAhead q p v ((r, w) ∷ l) a = ground (arith, set_volume-IsAhead q p v l a.1)

  pub set_volume-IsSorted :
      (p : D) (v : ℕ) (l : Levels D) → IsSorted before l → IsSorted before (set_volume before p v l)
  unfolding set_volume
  set_volume-IsSorted p v [] s = tt
  set_volume-IsSorted p v ((q, w) ∷ l) s =
      ground (arith, set_volume-IsAhead q p v l s.0, set_volume-IsSorted p v l s.1)

  erase_level-IsAhead :
      (q p : D) (l : Levels D) → IsAhead before q l → IsAhead before q (erase_level before p l)
  unfolding erase_level
  erase_level-IsAhead q p [] a = tt
  erase_level-IsAhead q p ((r, w) ∷ l) a = ground (arith, erase_level-IsAhead q p l a.1)

  pub erase_level-IsSorted :
      (p : D) (l : Levels D) → IsSorted before l → IsSorted before (erase_level before p l)
  unfolding erase_level
  erase_level-IsSorted p [] s = tt
  erase_level-IsSorted p ((q, w) ∷ l) s =
      ground (arith, erase_level-IsAhead q p l s.0, erase_level-IsSorted p l s.1)

  pub set_volume-IsPositive :
      (p : D) (v : ℕ) (l : Levels D) → 0 < v → IsPositive l → IsPositive (set_volume before p v l)
  unfolding set_volume
  set_volume-IsPositive p v [] lt a = tt
  set_volume-IsPositive p v ((q, w) ∷ l) lt a = ground (arith, set_volume-IsPositive p v l lt a.1)

  pub erase_level-IsPositive :
      (p : D) (l : Levels D) → IsPositive l → IsPositive (erase_level before p l)
  unfolding erase_level
  erase_level-IsPositive p [] a = tt
  erase_level-IsPositive p ((q, w) ∷ l) a = ground (arith, erase_level-IsPositive p l a.1)

  pub find_level-set_volume :
      (p r : D) (v : ℕ) (l : Levels D) {w : ℕ}
      → find_level before p l ≡ some w
      → find_level before r (set_volume before p v l)
        ≡ (if same before p r then some v else find_level before r l)
  unfolding find_level set_volume
  find_level-set_volume p r v [] {w} h = ground arith
  find_level-set_volume p r v ((q, u) ∷ l) {w} h = ground (
    arith,
    find_level-set_volume p r v l {w = w},
    same_trans q p r,
    same_trans p q r,
    same_trans r q p,
    same-sym q r,
  )

  pub find_level-erase_level :
      (p r : D) (l : Levels D) {w : ℕ}
      → IsSorted before l
      → find_level before p l ≡ some w
      → find_level before r (erase_level before p l)
        ≡ (if same before p r then none else find_level before r l)
  unfolding find_level erase_level
  find_level-erase_level p r [] {w} s h = ground arith
  find_level-erase_level p r ((q, u) ∷ l) {w} s h = ground (
    arith,
    find_level-erase_level p r l {w = w} s.1,
    IsAhead-find_level q r l s.0,
    same_trans q p r,
    same_trans p q r,
    same_trans r q p,
    same-sym q r,
  )

  -- Two prices that are the same find the same level.
  pub find_level_same :
      (p r : D) (l : Levels D)
      → same before p r ≡ true
      → find_level before r l ≡ find_level before p l
  unfolding find_level
  find_level_same p r [] h = refl
  find_level_same p r ((q, u) ∷ l) h =
      ground (arith, find_level_same p r l h, same_trans p r q, same-sym p q, same-sym r q)
