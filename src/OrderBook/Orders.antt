-- ===== src/OrderBook/Orders.antt =====
-- Changing, executing and replacing an order keep the displayed book consistent.
use nyse_pillar_market_data.Prelude.{
  ℕ, ◌+◌, ◌-◌, ◌<◌, ◌≡◌, ◌∙◌, refl, ap, true, false, none, some, nat_eq, arith, inl, inr,
  Bool-cases, ltb, leb, if◌then◌else◌,
}
use nyse_pillar_market_data.Prelude.Word.{u64_mod}
use nyse_pillar_market_data.Double.{Double, same, IsOrdered}
use nyse_pillar_market_data.Map.{Map, find, assign, erase, IsDistinct, AllValues}
use nyse_pillar_market_data.Map.Laws.{
  assign-IsDistinct, erase-IsDistinct, assign-AllValues, erase-AllValues,
}
use nyse_pillar_market_data.Message.{ModifyOrder, ReplaceOrder}
use nyse_pillar_market_data.OrderBook.Book.{LiveOrder, SymbolBook, add_level, remove_level}
use nyse_pillar_market_data.OrderBook.Agreement.{
  resting_at, IsPlus, add_level-Agrees, remove_level-Agrees, remove_level-orders, add_level-orders,
}
use nyse_pillar_market_data.OrderBook.Handlers.{
  fine, drop_order, execute_order, apply_modify_order, apply_replace_order,
}
use nyse_pillar_market_data.OrderBook.Consistency.{
  IsConsistent, IsPlus-assign_old, IsPlus-erase, resting_at-pos, place_order-IsConsistent,
  drop_order-lem, resting_at-erase-le,
}

module _ {D : Type 0} ⦃d : Double D⦄ (laws : IsOrdered D) where
  pub apply_modify_order-fine :
      (msg : ModifyOrder D) (o : LiveOrder D) (book : SymbolBook D)
      → IsConsistent book
      → find msg.order_id book.orders ≡ some o
      → (apply_modify_order msg book).1 ≡ fine
  unfolding apply_modify_order
  apply_modify_order-fine msg o book v h =
      let taken =
        remove_level-Agrees laws o book.orders (erase msg.order_id book.orders) book
          (resting_at-pos laws msg.order_id o book v h) (IsPlus-erase msg.order_id o book.orders h)
          v.levels in
      rw (h, apply_modify_order) (rw (taken.0) refl)

  pub apply_modify_order-IsConsistent :
      (msg : ModifyOrder D) (o : LiveOrder D) (book : SymbolBook D)
      → IsConsistent book
      → find msg.order_id book.orders ≡ some o
      → 0 < msg.volume
      → resting_at book.orders o.side msg.price + msg.volume < u64_mod
      → IsConsistent (apply_modify_order msg book).0
  unfolding apply_modify_order
  apply_modify_order-IsConsistent msg o book v h lt fits =
      let id = msg.order_id in
      let o' : LiveOrder D = record o { price = msg.price; volume = msg.volume } in
      let rest = erase id book.orders in
      let orders' = assign id o' book.orders in
      let removed = remove_level book o.side o.price o.volume in
      let same : removed.0.orders ≡ book.orders =
        remove_level-orders book o.side o.price o.volume in
      let (_, agrees) =
        remove_level-Agrees laws o book.orders rest book (resting_at-pos laws id o book v h)
          (IsPlus-erase id o book.orders h) v.levels in
      let less_rests = resting_at-erase-le laws id o.side msg.price book.orders in
      let book' : SymbolBook D = record (removed.0) { orders = assign id o' removed.0.orders } in
      let kept : (add_level book' o.side msg.price msg.volume).orders ≡ orders' =
        add_level-orders book' o.side msg.price msg.volume ∙ ap (assign id o') same in
      rw (h, apply_modify_order)
        (record {
          distinct = rw kept (assign-IsDistinct id o' book.orders v.distinct);
          volumes = rw kept (assign-AllValues _ id o' book.orders lt v.volumes);
          levels = rw kept (
              add_level-Agrees laws o' rest orders' book' lt (omega arith)
                (IsPlus-assign_old id o o' book.orders h) agrees);
        })

  -- The shares that a fill of `volume` takes off an order, and the orders that it leaves.
  abbrev filled : ℕ → LiveOrder D → LiveOrder D
  filled volume o = record o { volume = if ltb o.volume volume then o.volume else volume }

  abbrev left_after : ℕ → ℕ → LiveOrder D → Map ℕ (LiveOrder D) → Map ℕ (LiveOrder D)
  left_after id volume o orders =
      if leb o.volume volume
      then erase id orders
      else assign id (record o { volume = o.volume - volume }) orders

  IsPlus-filled :
      (id volume : ℕ) (o : LiveOrder D) (orders : Map ℕ (LiveOrder D))
      → find id orders ≡ some o
      → IsPlus (left_after id volume o orders) (filled volume o) orders
  IsPlus-filled id volume o orders h =
      let o' : LiveOrder D = record o { volume = o.volume - volume } in
      let whole = IsPlus-erase id o orders h in
      let part = IsPlus-assign_old id o o' orders h in
      record {
        bids = λ p. ground (arith, whole.bids p, part.bids p);
        asks = λ p. ground (arith, whole.asks p, part.asks p);
      }

  left_after-IsDistinct :
      (id volume : ℕ) (o : LiveOrder D) (orders : Map ℕ (LiveOrder D))
      → IsDistinct orders
      → IsDistinct (left_after id volume o orders)
  left_after-IsDistinct id volume o orders v =
      elim (leb o.volume volume)
        as (λ b. IsDistinct (
          if b
          then erase id orders
          else assign id (record o { volume = o.volume - volume }) orders)) [
            | true ↦ erase-IsDistinct id orders v
            | false ↦ assign-IsDistinct id _ orders v
          ]

  left_after-AllValues :
      (id volume : ℕ) (o : LiveOrder D) (orders : Map ℕ (LiveOrder D))
      → AllValues (λ x. 0 < x.volume) orders
      → AllValues (λ x. 0 < x.volume) (left_after id volume o orders)
  left_after-AllValues id volume o orders v = elim (Bool-cases (leb o.volume volume)) [
    | inl e ↦ rw e (erase-AllValues _ id orders v)
    | inr e ↦ rw e (assign-AllValues _ id _ orders (ground arith) v)
  ]

  pub execute_order-known :
      (id volume : ℕ) (o : LiveOrder D) (book : SymbolBook D)
      → IsConsistent book
      → find id book.orders ≡ some o
      → ((execute_order id volume book).1 ≡ fine) × IsConsistent (execute_order id volume book).0
  unfolding execute_order
  execute_order-known id volume o book v h =
      let orders' = left_after id volume o book.orders in
      let x = filled volume o in
      let removed = remove_level book o.side o.price x.volume in
      let same : removed.0.orders ≡ book.orders =
        remove_level-orders book o.side o.price x.volume in
      let (done, agrees) =
        remove_level-Agrees laws x book.orders orders' book (resting_at-pos laws id o book v h)
          (IsPlus-filled id volume o book.orders h) v.levels in
      rw (h, execute_order)
        (
          rw done refl,
          record {
            distinct = rw same (left_after-IsDistinct id volume o book.orders v.distinct);
            volumes = rw same (left_after-AllValues id volume o book.orders v.volumes);
            levels = rw same agrees;
          },
        )

  -- The new id of a replacement is free once the old order is gone.
  pub apply_replace_order-IsConsistent :
      (msg : ReplaceOrder D) (book : SymbolBook D)
      → find msg.new_order_id (erase msg.order_id book.orders) ≡ none
      → 0 < msg.volume
      → resting_at book.orders msg.side msg.price + msg.volume < u64_mod
      → IsConsistent book
      → IsConsistent (apply_replace_order msg book).0
  unfolding apply_replace_order
  apply_replace_order-IsConsistent msg book free lt fits v =
      let o : LiveOrder D = record { price = msg.price; volume = msg.volume; side = msg.side } in
      let dropped = (drop_order msg.order_id book).0 in
      let (same, w) = drop_order-lem laws msg.order_id book v in
      let less_rests = resting_at-erase-le laws msg.order_id msg.side msg.price book.orders in
      place_order-IsConsistent laws msg.new_order_id o dropped (rw same free) lt
        (rw same (omega arith)) w
