-- ===== src/OrderBook/Feed.antt =====
-- The order book over a whole feed: the invariant of every symbol, the failure counter, and that a
-- message concerns its own symbol alone.
use nyse_pillar_market_data.Prelude.{
  ◌≡◌, ◌↔◌, refl, Bool, true, false, List, [], ◌∷◌, Text, text_eq, arith, inl, inr, Bool-cases,
  if◌then◌else◌,
}
use nyse_pillar_market_data.Prelude.Word.{add64}
use nyse_pillar_market_data.Double.{Double, IsOrdered}
use nyse_pillar_market_data.Map.{find}
use nyse_pillar_market_data.Map.Laws.{get_or-assign, find-assign}
use nyse_pillar_market_data.Message.{Message, message_symbol}
use nyse_pillar_market_data.OrderBook.Book.{
  SymbolBook, OrderBook, empty_book, new_order_book, get_or_create_book,
}
use nyse_pillar_market_data.OrderBook.Handlers.{Report, build_failure}
use nyse_pillar_market_data.OrderBook.Dispatch.{
  count_build, with_book, handle, on_message, replay, get_top_of_book, get_daily_stats, is_halted,
  get_symbol_info, get_imbalance,
}
use nyse_pillar_market_data.OrderBook.Consistency.{IsConsistent, empty_book-IsConsistent}
use nyse_pillar_market_data.OrderBook.Invariant.{
  IsAcceptable, names_unknown, handle-IsConsistent, handle-build_failure,
}

module _ {D : Type 0} ⦃d : Double D⦄ where
  -- The book of every symbol is consistent.
  pub record IsValid (ob : OrderBook D) : Type 0 where
    pub every : (symbol : Text) → IsConsistent (get_or_create_book symbol ob)

  pub new_order_book-IsValid : IsValid new_order_book
  unfolding find
  new_order_book-IsValid = record { every = λ symbol. empty_book-IsConsistent }

  -- The book that a message is about.
  abbrev pub book_of : OrderBook D → Message D → SymbolBook D
  book_of ob m = get_or_create_book (message_symbol m) ob

  -- Every message is acceptable when it comes, and names a live order where it names one.
  abbrev pub IsWellFormed : OrderBook D → List (Message D) → Type 0
  IsWellFormed ob [] = Unit
  IsWellFormed ob (m ∷ ms) =
      IsAcceptable (book_of ob m) m
      × (names_unknown (book_of ob m) m ≡ false)
      × IsWellFormed (on_message m ob) ms

  pub get_or_create_book-on_message :
      (s : Text) (m : Message D) (ob : OrderBook D)
      → get_or_create_book s (on_message m ob) ≡ (
          if text_eq.beq (message_symbol m) s
          then (handle m (book_of ob m)).0
          else get_or_create_book s ob)
  unfolding on_message with_book
  get_or_create_book-on_message s m ob =
      get_or-assign (message_symbol m) s (handle m (book_of ob m)).0 empty_book ob.books

  find-on_message_ne :
      (s : Text) (m : Message D) (ob : OrderBook D)
      → text_eq.beq (message_symbol m) s ≡ false
      → find s (on_message m ob).books ≡ find s ob.books
  unfolding on_message with_book
  find-on_message_ne s m ob h =
      rw (find-assign (message_symbol m) s (handle m (book_of ob m)).0 ob.books, h)

  -- A message changes nothing that can be read of another symbol.
  pub on_message-other_symbol :
      (m : Message D) (ob : OrderBook D) (s : Text)
      → text_eq.beq (message_symbol m) s ≡ false
      → let ob' = on_message m ob in
        (get_top_of_book s ob' ≡ get_top_of_book s ob)
        × (get_daily_stats s ob' ≡ get_daily_stats s ob)
        × (is_halted s ob' ≡ is_halted s ob)
        × (get_symbol_info s ob' ≡ get_symbol_info s ob)
        × (get_imbalance s ob' ≡ get_imbalance s ob)
  unfolding get_top_of_book get_daily_stats is_halted get_symbol_info get_imbalance
  on_message-other_symbol m ob s h = let same = find-on_message_ne s m ob h in ground (arith, same)

  module _ (laws : IsOrdered D) where
    pub on_message-IsValid :
        (m : Message D) (ob : OrderBook D)
        → IsAcceptable (book_of ob m) m
        → IsValid ob
        → IsValid (on_message m ob)
    on_message-IsValid m ob a v = record {
      every = λ s.
          rw (get_or_create_book-on_message s m ob)
            (elim (Bool-cases (text_eq.beq (message_symbol m) s)) [
              | inl e ↦
                  rw e (handle-IsConsistent laws m (book_of ob m) a (v.every (message_symbol m)))
              | inr e ↦ rw e (v.every s)
            ]);
    }

    -- In a valid order book, the failure counter goes up by one (modulo 2^64) for a message that modifies,
    -- deletes, executes or replaces an order that is not live, and stays for every other message. Prices
    -- are ordered.
    pub on_message-book_build_failures :
        (m : Message D) (ob : OrderBook D)
        → IsValid ob
        → (on_message m ob).book_build_failures ≡ (
            if names_unknown (book_of ob m) m
            then add64 ob.book_build_failures 1
            else ob.book_build_failures)
    unfolding on_message with_book
    on_message-book_build_failures m ob v =
        counted (handle m (book_of ob m)).1 (names_unknown (book_of ob m) m)
          (handle-build_failure laws m (book_of ob m) (v.every (message_symbol m)))
      where
        counted :
            (r : Report) (b : Bool)
            → (r ≡ build_failure) ↔ (b ≡ true)
            → count_build r ob.book_build_failures
              ≡ (if b then add64 ob.book_build_failures 1 else ob.book_build_failures)
        counted r b h = ground (arith, h.0, h.1)

    replay-lem :
        (ms : List (Message D)) (ob : OrderBook D)
        → IsWellFormed ob ms
        → IsValid ob
        → IsValid (replay ms ob) × ((replay ms ob).book_build_failures ≡ ob.book_build_failures)
    unfolding replay
    replay-lem [] ob w v = (v, refl)
    replay-lem (m ∷ ms) ob w v =
        let (valid, count) = replay-lem ms (on_message m ob) w.2 (on_message-IsValid m ob w.0 v) in
        (valid, rw (count, on_message-book_build_failures m ob v, w.1))

    -- After any well-formed feed, `GetBookBuildFailures` is still 0 and the book of every symbol is
    -- consistent. In a well-formed feed a new order has a free id, no order is empty, the volume at a price
    -- stays a 64-bit word, and an order that is modified, deleted, executed or replaced is live; for a modify
    -- or a replace the old order's volume counts too, before it is taken off. Prices are ordered.
    pub replay-new_order_book :
        (ms : List (Message D))
        → IsWellFormed new_order_book ms
        → IsValid (replay ms new_order_book) × ((replay ms new_order_book).book_build_failures ≡ 0)
    replay-new_order_book ms w = replay-lem ms new_order_book w new_order_book-IsValid
