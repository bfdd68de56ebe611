-- ===== src/OrderBook/Undo.antt =====
-- Deleting an order that was just added gives the book back.
use nyse_pillar_market_data.Prelude.{
  ℕ, ◌+◌, ◌<◌, ◌≡◌, refl, true, none, some, nat_eq, arith, inl, inr, Bool-cases,
}
use nyse_pillar_market_data.Prelude.Word.{u64_mod}
use nyse_pillar_market_data.Double.{Double, less, greater, IsOrdered, greater-IsStrictWeak}
use nyse_pillar_market_data.Levels.RoundTrip.{take_volume-add_volume}
use nyse_pillar_market_data.Map.{find, assign}
use nyse_pillar_market_data.Map.Laws.{find-assign, beq_refl, erase-assign_new}
use nyse_pillar_market_data.Message.{AddOrder, DeleteOrder}
use nyse_pillar_market_data.OrderBook.Book.{LiveOrder, SymbolBook, is_bid, add_level, remove_level}
use nyse_pillar_market_data.OrderBook.Agreement.{resting_at, add_level-orders}
use nyse_pillar_market_data.OrderBook.Handlers.{fine, apply_add_order, apply_delete_order}
use nyse_pillar_market_data.OrderBook.Consistency.{IsConsistent}

module _ {D : Type 0} ⦃d : Double D⦄ (laws : IsOrdered D) where
  remove_level-add_level :
      (side : ℕ) (price : D) (volume : ℕ) (book book' : SymbolBook D)
      → IsConsistent book
      → resting_at book.orders side price + volume < u64_mod
      → book'.bid_levels ≡ book.bid_levels
      → book'.ask_levels ≡ book.ask_levels
      → remove_level (add_level book' side price volume) side price volume ≡ (book', true)
  unfolding remove_level add_level
  remove_level-add_level side price volume book book' v fits eb ea =
      let bids = v.levels.bids in
      let asks = v.levels.asks in
      elim (Bool-cases (is_bid side)) [
        | inl e ↦
            let fits' = rw e at fits in
            ground (
              arith,
              take_volume-add_volume greater (greater-IsStrictWeak laws) price volume
                  book.bid_levels bids.sorted bids.positive (rw (bids.agree price) fits'),
            )
        | inr e ↦
            let fits' = rw e at fits in
            ground (
              arith,
              take_volume-add_volume less laws price volume book.ask_levels asks.sorted
                  asks.positive (rw (asks.agree price) fits'),
            )
      ]

  -- On a consistent book, adding an order under a free id and deleting it gives the same book, with
  -- no failure, if the volume at its price stays a 64-bit word. Prices are ordered.
  pub apply_delete_order-apply_add_order :
      (a : AddOrder D) (x : DeleteOrder) (book : SymbolBook D)
      → x.order_id ≡ a.order_id
      → find a.order_id book.orders ≡ none
      → resting_at book.orders a.side a.price + a.volume < u64_mod
      → IsConsistent book
      → apply_delete_order x (apply_add_order a book).0 ≡ (book, fine)
  unfolding apply_delete_order apply_add_order
  apply_delete_order-apply_add_order a x book same free fits v =
      let id = a.order_id in
      let o : LiveOrder D = record { price = a.price; volume = a.volume; side = a.side } in
      let book' : SymbolBook D = record book { orders = assign id o book.orders } in
      let kept = add_level-orders book' a.side a.price a.volume in
      let there : find id (assign id o book.orders) ≡ some o =
        rw (find-assign id id o book.orders, beq_refl id) refl in
      let back = remove_level-add_level a.side a.price a.volume book book' v fits refl refl in
      rw same (ground (arith, kept, there, back, erase-assign_new id o book.orders free))
