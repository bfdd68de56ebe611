-- ===== src/OrderBook/Top.antt =====
-- The top of the book is what the live orders make it.
use nyse_pillar_market_data.Prelude.{
  ℕ, ◌<◌, ◌≤◌, ◌≡◌, Bool, true, false, [], ◌∷◌, Option, none, some, Text, text_eq, arith,
}
use nyse_pillar_market_data.Double.{
  Double, less, greater, IsOrdered, IsStrictWeak, greater-IsStrictWeak,
}
use nyse_pillar_market_data.Levels.{Levels, find_level, IsAhead}
use nyse_pillar_market_data.Levels.Laws.{same_refl, before_asym, IsAhead-find_level}
use nyse_pillar_market_data.Map.{Map, AllValues}
use nyse_pillar_market_data.Map.Laws.{AllValues-zip, le-sum_values}
use nyse_pillar_market_data.OrderBook.Book.{
  PriceLevel, LiveOrder, OrderBook, is_bid, get_or_create_book,
}
use nyse_pillar_market_data.OrderBook.Dispatch.{best_level, get_top_of_book}
use nyse_pillar_market_data.OrderBook.Side.{share, resting, SideAgrees}
use nyse_pillar_market_data.OrderBook.Agreement.{is_ask}
use nyse_pillar_market_data.OrderBook.Feed.{IsValid}

module _ {D : Type 0} (before : D → D → Bool) (on : ℕ → Bool) where
  -- No level is right if no live order is on the side. A level is right if it holds the volume of
  -- the live orders of the side at its price, which is not 0, and no live order of the side comes
  -- before it.
  abbrev pub IsTop : Map ℕ (LiveOrder D) → Option (PriceLevel D) → Type 0
  IsTop orders none = AllValues (λ o. on o.side ≡ false) orders
  IsTop orders (some l) =
      (0 < l.aggregate_volume)
      × (l.aggregate_volume ≡ resting before on l.price orders)
      × AllValues (λ o. on o.side ≡ true → before o.price l.price ≡ false) orders

  module _ (laws : IsStrictWeak before) where
    -- Volume rests at the price of every order of the side.
    resting-orders :
        (orders : Map ℕ (LiveOrder D))
        → AllValues (λ o. 0 < o.volume) orders
        → AllValues (λ o. on o.side ≡ true → 0 < resting before on o.price orders) orders
    resting-orders orders pos =
        AllValues-zip (λ o. 0 < o.volume)
          (λ o. (p : D) → share before on p o ≤ resting before on p orders) _ orders
          (λ o lt le here. ground (arith, le o.price, same_refl before laws o.price)) pos
          (le-sum_values (share before on) orders)

    before_first :
        (p q : D) (w : ℕ) (l : Levels D)
        → IsAhead before q l
        → before p q ≡ true
        → find_level before p ((q, w) ∷ l) ≡ none
    unfolding find_level
    before_first p q w l a h =
        ground (arith, before_asym before laws p q h, IsAhead-find_level before laws q p l a)

    pub best_level-IsTop :
        (orders : Map ℕ (LiveOrder D)) (levels : Levels D)
        → AllValues (λ o. 0 < o.volume) orders
        → SideAgrees before on orders levels
        → IsTop orders (best_level levels)
    unfolding find_level
    best_level-IsTop orders [] pos v =
        AllValues-zip (λ o. 0 < o.volume)
          (λ o. on o.side ≡ true → 0 < resting before on o.price orders) _ orders
          (λ o _ some_rest. ground (arith, some_rest, v.agree o.price)) pos
          (resting-orders orders pos)
    best_level-IsTop orders ((q, w) ∷ l) pos v = (
      v.positive.0,
      ground (arith, v.agree q, same_refl before laws q),
      AllValues-zip (λ o. 0 < o.volume)
          (λ o. on o.side ≡ true → 0 < resting before on o.price orders) _ orders
          (λ o _ some_rest here.
            ground (arith, some_rest here, v.agree o.price, before_first o.price q w l v.sorted.0))
          pos (resting-orders orders pos),
    )

module _ {D : Type 0} ⦃d : Double D⦄ where
  get_top_of_book-eq :
      (s : Text) (ob : OrderBook D)
      → get_top_of_book s ob ≡ record {
        best_bid = best_level (get_or_create_book s ob).bid_levels;
        best_ask = best_level (get_or_create_book s ob).ask_levels;
      }
  unfolding get_top_of_book
  get_top_of_book-eq s ob = ground arith

  -- In a valid order book, the best bid of a symbol is the level of the highest price at which a bid
  -- is live and holds the volume of the live bids there, or none if no bid is live; and the best ask
  -- likewise, with the lowest price of the asks. Prices are ordered.
  pub get_top_of_book-IsTop :
      IsOrdered D
      → (ob : OrderBook D) (symbol : Text) → IsValid ob
      → let top = get_top_of_book symbol ob in
        let orders = (get_or_create_book symbol ob).orders in
        IsTop greater is_bid orders top.best_bid × IsTop less is_ask orders top.best_ask
  get_top_of_book-IsTop laws ob symbol v =
      let book = get_or_create_book symbol ob in
      let w = v.every symbol in
      rw (get_top_of_book-eq symbol ob) (
        best_level-IsTop greater is_bid (greater-IsStrictWeak laws) book.orders book.bid_levels
            w.volumes w.levels.bids,
        best_level-IsTop less is_ask laws book.orders book.ask_levels w.volumes w.levels.asks,
      )
