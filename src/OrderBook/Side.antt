-- ===== src/OrderBook/Side.antt =====
-- One side of a book: its levels against the resting orders that stand behind them.
use nyse_pillar_market_data.Prelude.{
  ℕ, ◌+◌, ◌<◌, ◌≡◌, Bool, true, false, ◌&&◌, some, arith, if◌then◌else◌,
}
use nyse_pillar_market_data.Prelude.Word.{u64_mod}
use nyse_pillar_market_data.Double.{same, IsStrictWeak}
use nyse_pillar_market_data.Map.{Map, sum_values}
use nyse_pillar_market_data.Levels.{
  Levels, find_level, add_volume, take_volume, IsSorted, IsPositive, volume_of,
}
use nyse_pillar_market_data.Levels.Laws.{
  same_refl, add_volume-IsSorted, add_volume-IsPositive, find_level-add_volume,
}
use nyse_pillar_market_data.Levels.Take.{take_volume-IsTaken}
use nyse_pillar_market_data.OrderBook.Book.{LiveOrder}

module _ {D : Type 0} (before : D → D → Bool) (on : ℕ → Bool) where
  -- What an order adds to the level of a price.
  abbrev pub share : D → LiveOrder D → ℕ
  share p o = if on o.side && same before o.price p then o.volume else 0

  -- The volume of the orders of this side that rest at a price.
  abbrev pub resting : D → Map ℕ (LiveOrder D) → ℕ
  resting p orders = sum_values (share p) orders

  -- The levels are in price order, none is empty, and each price has the volume of its orders.
  pub record SideAgrees (orders : Map ℕ (LiveOrder D)) (levels : Levels D) : Type 0 where
    pub sorted : IsSorted before levels
    pub positive : IsPositive levels
    pub agree : (p : D) → volume_of (find_level before p levels) ≡ resting p orders

module _ {D : Type 0} (before : D → D → Bool) (on : ℕ → Bool) (laws : IsStrictWeak before) where
  -- Orders of the other side do not count.
  pub SideAgrees-off :
      (o : LiveOrder D) (orders orders' : Map ℕ (LiveOrder D)) (levels : Levels D)
      → on o.side ≡ false
      → ((p : D) → resting before on p orders' ≡ resting before on p orders + share before on p o)
      → SideAgrees before on orders levels
      → SideAgrees before on orders' levels
  SideAgrees-off o orders orders' levels off more v = record {
    sorted = v.sorted;
    positive = v.positive;
    agree = λ p. ground (arith, more p, v.agree p);
  }

  pub SideAgrees-off_less :
      (o : LiveOrder D) (orders orders' : Map ℕ (LiveOrder D)) (levels : Levels D)
      → on o.side ≡ false
      → ((p : D) → resting before on p orders ≡ resting before on p orders' + share before on p o)
      → SideAgrees before on orders levels
      → SideAgrees before on orders' levels
  SideAgrees-off_less o orders orders' levels off less v = record {
    sorted = v.sorted;
    positive = v.positive;
    agree = λ p. ground (arith, less p, v.agree p);
  }

  -- A new order on this side.
  pub SideAgrees-add_volume :
      (o : LiveOrder D) (orders orders' : Map ℕ (LiveOrder D)) (levels : Levels D)
      → on o.side ≡ true
      → 0 < o.volume
      → resting before on o.price orders + o.volume < u64_mod
      → ((p : D) → resting before on p orders' ≡ resting before on p orders + share before on p o)
      → SideAgrees before on orders levels
      → SideAgrees before on orders' (add_volume before o.price o.volume levels)
  SideAgrees-add_volume o orders orders' levels here lt fits more v =
      let room : volume_of (find_level before o.price levels) + o.volume < u64_mod =
        omega (arith, v.agree o.price) in
      record {
        sorted = add_volume-IsSorted before laws o.price o.volume levels v.sorted;
        positive = add_volume-IsPositive before laws o.price o.volume levels lt room v.positive;
        agree = λ p. ground (
          arith,
          more p,
          v.agree p,
          find_level-add_volume before laws o.price p o.volume levels v.sorted room,
        );
      }

  -- Volume taken from an order on this side: the level holds enough.
  pub SideAgrees-take_volume :
      (o : LiveOrder D) (orders orders' : Map ℕ (LiveOrder D)) (levels : Levels D)
      → on o.side ≡ true
      → 0 < resting before on o.price orders
      → ((p : D) → resting before on p orders ≡ resting before on p orders' + share before on p o)
      → SideAgrees before on orders levels
      → (levels' : Levels D) × (take_volume before o.price o.volume levels ≡ some levels')
        × SideAgrees before on orders' levels'
  SideAgrees-take_volume o orders orders' levels here lt less v =
      let at = v.agree o.price in
      let own : share before on o.price o ≡ o.volume =
        ground (arith, same_refl before laws o.price) in
      let (levels', taken, rest) =
        take_volume-IsTaken before laws o.price o.volume levels v.sorted v.positive (omega arith)
          (omega (arith, less o.price)) in
      (
        levels',
        taken,
        record {
          sorted = rest.sorted;
          positive = rest.positive;
          agree = λ p. ground (arith, less p, v.agree p, rest.left p);
        },
      )
