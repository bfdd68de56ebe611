-- ===== src/OrderBook/Consistency.antt =====
-- The invariant of the displayed book, and that placing, dropping, changing and executing orders
-- keep it.
use nyse_pillar_market_data.Prelude.{
  ℕ, ◌+◌, ◌<◌, ◌≤◌, ◌≡◌, refl, ap, sym, none, some, nat_eq, arith, inl, inr, Option-cases,
}
use nyse_pillar_market_data.Prelude.Word.{u64_mod}
use nyse_pillar_market_data.Double.{Double, less, greater, IsOrdered, greater-IsStrictWeak}
use nyse_pillar_market_data.Levels.{find_level}
use nyse_pillar_market_data.Levels.Laws.{same_refl}
use nyse_pillar_market_data.Map.{Map, find, assign, erase, IsDistinct, AllValues, sum_values}
use nyse_pillar_market_data.Map.Laws.{
  assign-IsDistinct, erase-IsDistinct, assign-AllValues, erase-AllValues, find-AllValues,
  sum_values-erase, sum_values-assign_new, sum_values-assign_old, erase-eq_self,
}
use nyse_pillar_market_data.OrderBook.Book.{
  LiveOrder, SymbolBook, empty_book, is_bid, add_level, remove_level,
}
use nyse_pillar_market_data.OrderBook.Side.{share}
use nyse_pillar_market_data.OrderBook.Agreement.{
  is_ask, resting_at, IsPlus, Agrees, add_level-Agrees, remove_level-Agrees, remove_level-orders,
  add_level-orders,
}
use nyse_pillar_market_data.OrderBook.Handlers.{fine, build_failure, place_order, drop_order}

-- No order id is live twice, no live order is empty, and the levels are those of the live orders.
pub record IsConsistent {D : Type 0} ⦃d : Double D⦄ (book : SymbolBook D) : Type 0 where
  pub distinct : IsDistinct book.orders
  pub volumes : AllValues (λ o. 0 < o.volume) book.orders
  pub levels : Agrees book.orders book.bid_levels book.ask_levels

module _ {D : Type 0} ⦃d : Double D⦄ where
  pub empty_book-IsConsistent : IsConsistent {D = D} empty_book
  unfolding sum_values find_level
  empty_book-IsConsistent = record {
    distinct = tt;
    volumes = tt;
    levels = record {
      bids = record { sorted = tt; positive = tt; agree = λ p. refl };
      asks = record { sorted = tt; positive = tt; agree = λ p. refl };
    };
  }

  pub IsPlus-assign_new :
      (id : ℕ) (o : LiveOrder D) (orders : Map ℕ (LiveOrder D))
      → find id orders ≡ none
      → IsPlus orders o (assign id o orders)
  IsPlus-assign_new id o orders h = record {
    bids = λ p. sum_values-assign_new (share greater is_bid p) id o orders h;
    asks = λ p. sum_values-assign_new (share less is_ask p) id o orders h;
  }

  pub IsPlus-assign_old :
      (id : ℕ) (o o' : LiveOrder D) (orders : Map ℕ (LiveOrder D))
      → find id orders ≡ some o
      → IsPlus (erase id orders) o' (assign id o' orders)
  IsPlus-assign_old id o o' orders h = record {
    bids = λ p. sum_values-assign_old (share greater is_bid p) id o' orders {w = o} h;
    asks = λ p. sum_values-assign_old (share less is_ask p) id o' orders {w = o} h;
  }

  pub IsPlus-erase :
      (id : ℕ) (o : LiveOrder D) (orders : Map ℕ (LiveOrder D))
      → find id orders ≡ some o
      → IsPlus (erase id orders) o orders
  IsPlus-erase id o orders h = record {
    bids = λ p. sum_values-erase (share greater is_bid p) id orders {v = o} h;
    asks = λ p. sum_values-erase (share less is_ask p) id orders {v = o} h;
  }

module _ {D : Type 0} ⦃d : Double D⦄ (laws : IsOrdered D) where
  -- Something rests at the price of a live order.
  pub resting_at-pos :
      (id : ℕ) (o : LiveOrder D) (book : SymbolBook D)
      → IsConsistent book
      → find id book.orders ≡ some o
      → 0 < resting_at book.orders o.side o.price
  resting_at-pos id o book v h =
      let pos : 0 < o.volume = find-AllValues _ id book.orders v.volumes h in
      let more = IsPlus-erase id o book.orders h in
      ground (
        arith,
        more.bids o.price,
        more.asks o.price,
        same_refl less laws o.price,
        same_refl greater (greater-IsStrictWeak laws) o.price,
      )

  pub place_order-IsConsistent :
      (id : ℕ) (o : LiveOrder D) (book : SymbolBook D)
      → find id book.orders ≡ none
      → 0 < o.volume
      → resting_at book.orders o.side o.price + o.volume < u64_mod
      → IsConsistent book
      → IsConsistent (place_order id o book)
  unfolding place_order
  place_order-IsConsistent id o book new lt fits v =
      let orders' = assign id o book.orders in
      let book' = record book { orders = orders' } in
      let same : (add_level book' o.side o.price o.volume).orders ≡ orders' =
        add_level-orders book' o.side o.price o.volume in
      record {
        distinct = rw same (assign-IsDistinct id o book.orders v.distinct);
        volumes = rw same (assign-AllValues _ id o book.orders lt v.volumes);
        levels = rw same (
            add_level-Agrees laws o book.orders orders' book' lt fits
              (IsPlus-assign_new id o book.orders new) v.levels);
      }

  -- A known order is dropped without a failure.
  pub drop_order-known :
      (id : ℕ) (o : LiveOrder D) (book : SymbolBook D)
      → IsConsistent book
      → find id book.orders ≡ some o
      → ((drop_order id book).1 ≡ fine)
        × ((drop_order id book).0.orders ≡ erase id book.orders)
        × IsConsistent (drop_order id book).0
  unfolding drop_order
  drop_order-known id o book v h =
      let orders' = erase id book.orders in
      let removed = remove_level book o.side o.price o.volume in
      let same : removed.0.orders ≡ book.orders =
        remove_level-orders book o.side o.price o.volume in
      let (done, rest) =
        remove_level-Agrees laws o book.orders orders' book (resting_at-pos id o book v h)
          (IsPlus-erase id o book.orders h) v.levels in
      rw (h, drop_order)
        (
          rw done refl,
          ap (erase id) same,
          record {
            distinct = rw same (erase-IsDistinct id book.orders v.distinct);
            volumes = rw same (erase-AllValues _ id book.orders v.volumes);
            levels = rw same rest;
          },
        )

  pub drop_order-unknown :
      (id : ℕ) (book : SymbolBook D)
      → find id book.orders ≡ none
      → drop_order id book ≡ (book, build_failure)
  unfolding drop_order
  drop_order-unknown id book h = rw (h, drop_order)

  -- Known or not, the order is gone afterwards and the book is consistent.
  pub drop_order-lem :
      (id : ℕ) (book : SymbolBook D)
      → IsConsistent book
      → ((drop_order id book).0.orders ≡ erase id book.orders) × IsConsistent (drop_order id book).0
  drop_order-lem id book v = elim (Option-cases (find id book.orders)) [
    | inl e ↦ rw (drop_order-unknown id book e) (sym (erase-eq_self id book.orders e), v)
    | inr (o, e) ↦ let known = drop_order-known id o book v e in (known.1, known.2)
  ]

  -- What rests without an order is no more than what rests.
  pub resting_at-erase-le :
      (id side : ℕ) (price : D) (orders : Map ℕ (LiveOrder D))
      → resting_at (erase id orders) side price ≤ resting_at orders side price
  resting_at-erase-le id side price orders = elim (Option-cases (find id orders)) [
    | inl e ↦ rw (erase-eq_self id orders e) (omega arith)
    | inr (o, e) ↦
        let more = IsPlus-erase id o orders e in ground (arith, more.bids price, more.asks price)
  ]
