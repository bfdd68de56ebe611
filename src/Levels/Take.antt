-- ===== src/Levels/Take.antt =====
-- Taking volume from a level: when it succeeds, what is left, and that it undoes adding.
use nyse_pillar_market_data.Prelude.{
  ℕ, ◌+◌, ◌-◌, ◌<◌, ◌≤◌, ◌≡◌, Bool, none, some, arith, inl, inr, if◌then◌else◌, ◌==◌, Option-cases,
}
use nyse_pillar_market_data.Double.{same, IsStrictWeak}
use nyse_pillar_market_data.Levels.{
  Levels, find_level, set_volume, erase_level, take_volume, IsSorted, volume_of, IsPositive,
}
use nyse_pillar_market_data.Levels.Laws.{
  set_volume-IsSorted, erase_level-IsSorted, set_volume-IsPositive, erase_level-IsPositive,
  find_level-set_volume, find_level-erase_level, find_level_same,
}

module _ {D : Type 0} (before : D → D → Bool) (laws : IsStrictWeak before) where
  -- What a successful take leaves.
  pub record IsTaken (p : D) (v : ℕ) (l l' : Levels D) : Type 0 where
    pub sorted : IsSorted before l'
    pub positive : IsPositive l'
    pub left :
        (r : D)
        → volume_of (find_level before r l)
          ≡ volume_of (find_level before r l') + (if same before p r then v else 0)

  -- The levels after taking `v` from a level that holds `w`.
  abbrev taken : D → ℕ → ℕ → Levels D → Levels D
  taken p v w l = if (w - v) == 0 then erase_level before p l else set_volume before p (w - v) l

  taken-IsTaken :
      (p : D) (v w : ℕ) (l : Levels D)
      → IsSorted before l
      → IsPositive l
      → find_level before p l ≡ some w
      → v ≤ w
      → IsTaken p v l (taken p v w l)
  taken-IsTaken p v w l s a f h = record {
    sorted = ground (
      arith,
      set_volume-IsSorted before laws p (w - v) l s,
      erase_level-IsSorted before laws p l s,
    );
    positive = ground (
      arith,
      set_volume-IsPositive before laws p (w - v) l,
      erase_level-IsPositive before laws p l a,
    );
    left = λ r. ground (
      arith,
      find_level-set_volume before laws p r (w - v) l {w = w} f,
      find_level-erase_level before laws p r l {w = w} s f,
      find_level_same before laws p r l,
    );
  }

  -- Taking succeeds where the level holds enough.
  pub take_volume-IsTaken :
      (p : D) (v : ℕ) (l : Levels D)
      → IsSorted before l
      → IsPositive l
      → 0 < volume_of (find_level before p l)
      → v ≤ volume_of (find_level before p l)
      → (l' : Levels D) × (take_volume before p v l ≡ some l') × IsTaken p v l l'
  unfolding take_volume
  take_volume-IsTaken p v l s a some_left enough = elim (Option-cases (find_level before p l)) [
    | inl e ↦ absurd (ground (arith, e))
    | inr (w, e) ↦
        let fits : v ≤ w = ground (arith, e) in
        (taken p v w l, rw (e, take_volume) (ground arith), taken-IsTaken p v w l s a e fits)
  ]

  -- It fails, and leaves the levels alone, exactly where the level is missing or holds less.
  pub take_volume-none :
      (p : D) (v : ℕ) (l : Levels D)
      → take_volume before p v l ≡ none
      → (w : ℕ) → find_level before p l ≡ some w
      → w < v
  unfolding take_volume
  take_volume-none p v l h w f = ground arith
