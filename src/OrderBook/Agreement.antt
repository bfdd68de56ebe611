-- ===== src/OrderBook/Agreement.antt =====
-- Both sides of a book against its orders, and what the level helpers do to the agreement.
use nyse_pillar_market_data.Prelude.{
  ℕ, ◌+◌, ◌<◌, ◌≡◌, refl, Bool, true, not, arith, inl, inr, Bool-cases, if◌then◌else◌,
}
use nyse_pillar_market_data.Prelude.Word.{u64_mod}
use nyse_pillar_market_data.Double.{Double, less, greater, IsOrdered, greater-IsStrictWeak}
use nyse_pillar_market_data.Map.{Map}
use nyse_pillar_market_data.Levels.{Levels}
use nyse_pillar_market_data.OrderBook.Book.{LiveOrder, SymbolBook, is_bid, add_level, remove_level}
use nyse_pillar_market_data.OrderBook.Side.{
  share, resting, SideAgrees, SideAgrees-off, SideAgrees-off_less, SideAgrees-add_volume,
  SideAgrees-take_volume,
}

abbrev pub is_ask : ℕ → Bool
is_ask side = not (is_bid side)

module _ {D : Type 0} ⦃d : Double D⦄ where
  -- The volume that rests at a price on the side of a character.
  abbrev pub resting_at : Map ℕ (LiveOrder D) → ℕ → D → ℕ
  resting_at orders side price =
      if is_bid side
      then resting (greater ⦃d = d⦄) is_bid price orders
      else resting (less ⦃d = d⦄) is_ask price orders

  -- `orders'` has the volume of `orders` and that of `o`.
  pub record IsPlus (orders : Map ℕ (LiveOrder D)) (o : LiveOrder D) (orders' : Map ℕ (LiveOrder D))
      : Type 0 where
    pub bids :
        (p : D)
        → resting (greater ⦃d = d⦄) is_bid p orders'
          ≡ resting (greater ⦃d = d⦄) is_bid p orders + share (greater ⦃d = d⦄) is_bid p o
    pub asks :
        (p : D)
        → resting (less ⦃d = d⦄) is_ask p orders'
          ≡ resting (less ⦃d = d⦄) is_ask p orders + share (less ⦃d = d⦄) is_ask p o

  -- The levels are those of the orders.
  pub record Agrees (orders : Map ℕ (LiveOrder D)) (bid_levels ask_levels : Levels D) : Type 0 where
    pub bids : SideAgrees (greater ⦃d = d⦄) is_bid orders bid_levels
    pub asks : SideAgrees (less ⦃d = d⦄) is_ask orders ask_levels

module _ {D : Type 0} ⦃d : Double D⦄ (laws : IsOrdered D) where
  pub add_level-Agrees :
      (o : LiveOrder D) (orders orders' : Map ℕ (LiveOrder D)) (book : SymbolBook D)
      → 0 < o.volume
      → resting_at orders o.side o.price + o.volume < u64_mod
      → IsPlus orders o orders'
      → Agrees orders book.bid_levels book.ask_levels
      → let added = add_level book o.side o.price o.volume in
        Agrees orders' added.bid_levels added.ask_levels
  unfolding add_level
  add_level-Agrees o orders orders' book lt fits more v = elim (Bool-cases (is_bid o.side)) [
    | inl e ↦ rw e (record {
      bids =
          SideAgrees-add_volume greater is_bid (greater-IsStrictWeak laws) o orders orders'
            book.bid_levels e lt (rw e at fits) more.bids v.bids;
      asks =
          SideAgrees-off less is_ask laws o orders orders' book.ask_levels (rw e refl) more.asks
            v.asks;
    })
    | inr e ↦ rw e (record {
      bids =
          SideAgrees-off greater is_bid (greater-IsStrictWeak laws) o orders orders' book.bid_levels
            e more.bids v.bids;
      asks =
          SideAgrees-add_volume less is_ask laws o orders orders' book.ask_levels (rw e refl) lt
            (rw e at fits) more.asks v.asks;
    })
  ]

  pub remove_level-Agrees :
      (o : LiveOrder D) (orders orders' : Map ℕ (LiveOrder D)) (book : SymbolBook D)
      → 0 < resting_at orders o.side o.price
      → IsPlus orders' o orders
      → Agrees orders book.bid_levels book.ask_levels
      → let removed = remove_level book o.side o.price o.volume in
        (removed.1 ≡ true) × Agrees orders' removed.0.bid_levels removed.0.ask_levels
  unfolding remove_level
  remove_level-Agrees o orders orders' book lt less_by v = elim (Bool-cases (is_bid o.side)) [
    | inl e ↦
        let (levels, taken, rest) =
          SideAgrees-take_volume greater is_bid (greater-IsStrictWeak laws) o orders orders'
            book.bid_levels e (rw e at lt) less_by.bids v.bids in
        rw (e, taken)
          (
            refl,
            record {
              bids = rest;
              asks =
                  SideAgrees-off_less less is_ask laws o orders orders' book.ask_levels (rw e refl)
                    less_by.asks v.asks;
            },
          )
    | inr e ↦
        let (levels, taken, rest) =
          SideAgrees-take_volume less is_ask laws o orders orders' book.ask_levels (rw e refl)
            (rw e at lt) less_by.asks v.asks in
        rw (e, taken)
          (
            refl,
            record {
              bids =
                  SideAgrees-off_less greater is_bid (greater-IsStrictWeak laws) o orders orders'
                    book.bid_levels e less_by.bids v.bids;
              asks = rest;
            },
          )
  ]

module _ {D : Type 0} ⦃d : Double D⦄ where
  -- The level helpers touch nothing but the levels.
  pub remove_level-orders :
      (book : SymbolBook D) (side : ℕ) (price : D) (volume : ℕ)
      → (remove_level book side price volume).0.orders ≡ book.orders
  unfolding remove_level
  remove_level-orders book side price volume = ground arith

  pub add_level-orders :
      (book : SymbolBook D) (side : ℕ) (price : D) (volume : ℕ)
      → (add_level book side price volume).orders ≡ book.orders
  unfolding add_level
  add_level-orders book side price volume = ground arith
