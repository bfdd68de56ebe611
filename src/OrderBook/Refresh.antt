-- ===== src/OrderBook/Refresh.antt =====
-- Add Order Refresh for an order that is on the book already.
use nyse_pillar_market_data.Prelude.{
  ℕ, ◌+◌, ◌<◌, ◌≡◌, ap, ◌∙◌, some, nat_eq, arith, inl, inr, Bool-cases, if◌then◌else◌,
}
use nyse_pillar_market_data.Prelude.Word.{u64_mod}
use nyse_pillar_market_data.Double.{Double, less, greater, IsOrdered, greater-IsStrictWeak}
use nyse_pillar_market_data.Levels.{find_level, volume_of}
use nyse_pillar_market_data.Levels.Laws.{find_level-add_volume, same_refl}
use nyse_pillar_market_data.Map.{Map, find, assign, sum_values}
use nyse_pillar_market_data.Map.Laws.{sum_values-erase, sum_values-assign_old}
use nyse_pillar_market_data.Message.{AddOrderRefresh}
use nyse_pillar_market_data.OrderBook.Book.{LiveOrder, SymbolBook, is_bid, add_level}
use nyse_pillar_market_data.OrderBook.Side.{share}
use nyse_pillar_market_data.OrderBook.Agreement.{is_ask, resting_at, add_level-orders}
use nyse_pillar_market_data.OrderBook.Handlers.{apply_add_order_refresh}
use nyse_pillar_market_data.OrderBook.Consistency.{IsConsistent}

module _ {D : Type 0} ⦃d : Double D⦄ where
  -- The volume of the level at a price on the side of a character.
  abbrev pub level_at : SymbolBook D → ℕ → D → ℕ
  level_at book side price =
      if is_bid side
      then volume_of (find_level (greater ⦃d = d⦄) price book.bid_levels)
      else volume_of (find_level (less ⦃d = d⦄) price book.ask_levels)

  sum_values-assign_same :
      (f : LiveOrder D → ℕ) (id : ℕ) (o : LiveOrder D) (orders : Map ℕ (LiveOrder D))
      → find id orders ≡ some o
      → sum_values f (assign id o orders) ≡ sum_values f orders
  sum_values-assign_same f id o orders h =
      omega (
        arith,
        sum_values-assign_old f id o orders {w = o} h,
        sum_values-erase f id orders {v = o} h,
      )

  resting_at-assign_same :
      (side : ℕ) (price : D) (id : ℕ) (o : LiveOrder D) (orders : Map ℕ (LiveOrder D))
      → find id orders ≡ some o
      → resting_at (assign id o orders) side price ≡ resting_at orders side price
  resting_at-assign_same side price id o orders h = ground (
    arith,
    sum_values-assign_same (share greater is_bid price) id o orders h,
    sum_values-assign_same (share less is_ask price) id o orders h,
  )

  level_at-consistent :
      (book : SymbolBook D) (side : ℕ) (price : D)
      → IsConsistent book
      → level_at book side price ≡ resting_at book.orders side price
  level_at-consistent book side price v =
      ground (arith, v.levels.bids.agree price, v.levels.asks.agree price)

  module _ (laws : IsOrdered D) where
    level_at-add_level :
        (book : SymbolBook D) (orders : Map ℕ (LiveOrder D)) (side : ℕ) (price : D) (volume : ℕ)
        → IsConsistent book
        → resting_at book.orders side price + volume < u64_mod
        → level_at (add_level (record book { orders = orders }) side price volume) side price
          ≡ resting_at book.orders side price + volume
    unfolding add_level
    level_at-add_level book orders side price volume v fits = elim (Bool-cases (is_bid side)) [
      | inl e ↦
          let bids = v.levels.bids in
          let fits' = rw e at fits in
          ground (
            arith,
            bids.agree price,
            same_refl greater (greater-IsStrictWeak laws) price,
            find_level-add_volume greater (greater-IsStrictWeak laws) price price volume
                book.bid_levels bids.sorted (rw (bids.agree price) fits'),
          )
      | inr e ↦
          let asks = v.levels.asks in
          let fits' = rw e at fits in
          ground (
            arith,
            asks.agree price,
            same_refl less laws price,
            find_level-add_volume less laws price price volume book.ask_levels asks.sorted
                (rw (asks.agree price) fits'),
          )
    ]

    -- The bug: a refresh of an order that is live, as it stands on the book, adds its volume to the
    -- level once more, while the volume of the live orders stays what it was. So a book that was
    -- consistent is no longer. The order is not empty, the volume at the price stays a 64-bit word, and
    -- prices are ordered.
    pub apply_add_order_refresh-not-IsConsistent :
        (m : AddOrderRefresh D) (book : SymbolBook D)
        → IsConsistent book
        → find m.order_id book.orders
          ≡ some (record { price = m.price; volume = m.volume; side = m.side })
        → 0 < m.volume
        → resting_at book.orders m.side m.price + m.volume < u64_mod
        → let book' = (apply_add_order_refresh m book).0 in
          (level_at book' m.side m.price ≡ level_at book m.side m.price + m.volume)
          × (resting_at book'.orders m.side m.price ≡ resting_at book.orders m.side m.price)
          × ¬ IsConsistent book'
    unfolding apply_add_order_refresh
    apply_add_order_refresh-not-IsConsistent m book v live lt fits =
        let o : LiveOrder D = record { price = m.price; volume = m.volume; side = m.side } in
        let orders' = assign m.order_id o book.orders in
        let book' = add_level (record book { orders = orders' }) m.side m.price m.volume in
        let doubled : level_at book' m.side m.price
            ≡ resting_at book.orders m.side m.price + m.volume =
          level_at-add_level book orders' m.side m.price m.volume v fits in
        let before = level_at-consistent book m.side m.price v in
        let kept : book'.orders ≡ orders' =
          add_level-orders (record book { orders = orders' }) m.side m.price m.volume in
        let same : resting_at book'.orders m.side m.price ≡ resting_at book.orders m.side m.price =
          ap (λ os. resting_at os m.side m.price) kept
          ∙ resting_at-assign_same m.side m.price m.order_id o book.orders live in
        (
          omega arith,
          same,
          λ w. let after = level_at-consistent book' m.side m.price w in omega arith,
        )
