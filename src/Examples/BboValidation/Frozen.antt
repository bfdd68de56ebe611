-- ===== src/Examples/BboValidation/Frozen.antt =====
-- What the callback has frozen after a feed.
use mathlib.Core.List.{append_assoc, append-nil}
use nyse_pillar_market_data.Prelude.{
  ℕ, ◌≡◌, refl, ap, sym, ◌∙◌, Bool, true, false, ◌&&◌, List, [], ◌∷◌, ◌++◌, Option, none, some,
  Text, text_eq, leb, arith, inl, inr, Bool-cases, All, All-append, if◌then◌else◌,
}
use nyse_pillar_market_data.Double.{Double}
use nyse_pillar_market_data.Map.{Map, find}
use nyse_pillar_market_data.Map.Laws.{find-assign}
use nyse_pillar_market_data.Message.{
  Message, message_symbol, add_order, modify_order, delete_order, order_execution, replace_order,
  add_order_refresh,
}
use nyse_pillar_market_data.OrderBook.Parts.{is_order_message}
use nyse_pillar_market_data.OrderBook.Book.{OrderBook, TopOfBook, new_order_book}
use nyse_pillar_market_data.OrderBook.Dispatch.{on_message, replay, get_top_of_book}
use nyse_pillar_market_data.Examples.Loaders.{ReferenceQuote}
use nyse_pillar_market_data.Examples.BboValidation.{
  Validation, new_validation, extract_book_event_meta, callback, validate,
}

-- When a message about an order was sent.
abbrev pub sent_at : {D : Type 0} → Message D → ℕ
sent_at (add_order m) = m.nanos_since_midnight
sent_at (modify_order m) = m.nanos_since_midnight
sent_at (delete_order m) = m.nanos_since_midnight
sent_at (order_execution m) = m.nanos_since_midnight
sent_at (replace_order m) = m.nanos_since_midnight
sent_at (add_order_refresh m) = m.nanos_since_midnight
sent_at _ = 0

extract_book_event_meta-lem :
    {D : Type 0} (m : Message D)
    → let meta = extract_book_event_meta m in
      (meta.mutates_book ≡ is_order_message m)
      × (is_order_message m ≡ true
          → (meta.symbol ≡ message_symbol m) × (meta.nanos_since_midnight ≡ sent_at m))
unfolding message_symbol
extract_book_event_meta-lem m = ground arith

module _ {D : Type 0} ⦃d : Double D⦄ (reference : Map Text (ReferenceQuote D)) where
  -- A message about an order of the symbol, the only kind that changes the displayed book, no later than
  -- the reference quote.
  abbrev pub freezes : Text → Message D → Bool
  freezes s m = is_order_message m && text_eq.beq (message_symbol m) s && (elim (find s reference) [
    | none ↦ false
    | some ref ↦ leb (sent_at m) ref.nanos_since_midnight
  ])

  -- The last message of the feed that freezes the symbol, with what comes before and after it; the
  -- snapshot is the top of the book right after that message.
  pub record IsFrozenAt (s : Text) (ms : List (Message D)) (top : TopOfBook D) : Type 0 where
    pub before : List (Message D)
    pub last : Message D
    pub after : List (Message D)
    pub feed : ms ≡ before ++ last ∷ after
    pub freezing : freezes s last ≡ true
    pub later : All (λ m. freezes s m ≡ false) after
    pub snapshot : top ≡ get_top_of_book s (replay (before ++ last ∷ []) new_order_book)

  callback-book :
      (m : Message D) (v : Validation D) → (callback reference m v).book ≡ on_message m v.book
  unfolding callback
  callback-book m v = refl

  find-callback :
      (s : Text) (m : Message D) (v : Validation D)
      → find s (callback reference m v).frozen
        ≡ (if freezes s m then some (get_top_of_book s (on_message m v.book)) else find s v.frozen)
  unfolding callback
  find-callback s m v =
      let meta = extract_book_event_meta m in
      let stored =
        find-assign meta.symbol s (get_top_of_book meta.symbol (on_message m v.book)) v.frozen in
      ground (arith, stored, text_eq.beq_iff meta.symbol s, extract_book_event_meta-lem m)

  replay-snoc :
      (ms : List (Message D)) (m : Message D) (ob : OrderBook D)
      → replay (ms ++ m ∷ []) ob ≡ on_message m (replay ms ob)
  unfolding replay
  replay-snoc [] m ob = refl
  replay-snoc (x ∷ ms) m ob = replay-snoc ms m (on_message x ob)

  -- The state of the callback after the messages of a feed, for one symbol.
  abbrev pub Snapshot : Text → List (Message D) → Option (TopOfBook D) → Type 0
  Snapshot s ms none = All (λ m. freezes s m ≡ false) ms
  Snapshot s ms (some top) = IsFrozenAt s ms top

  frozen_now :
      (s : Text) (ms : List (Message D)) (m : Message D)
      → freezes s m ≡ true
      → IsFrozenAt s (ms ++ m ∷ []) (get_top_of_book s (on_message m (replay ms new_order_book)))
  frozen_now s ms m e = record {
    before = ms;
    last = m;
    after = [];
    feed = refl;
    freezing = e;
    later = tt;
    snapshot = ap (get_top_of_book s) (sym (replay-snoc ms m new_order_book));
  }

  Snapshot-snoc :
      (s : Text) (ms : List (Message D)) (m : Message D) (o : Option (TopOfBook D))
      → freezes s m ≡ false
      → Snapshot s ms o
      → Snapshot s (ms ++ m ∷ []) o
  Snapshot-snoc s ms m none e h = All-append (λ x. freezes s x ≡ false) ms (m ∷ []) h (e, tt)
  Snapshot-snoc s ms m (some top) e h = record {
    before = h.before;
    last = h.last;
    after = h.after ++ m ∷ [];
    feed = ap (λ l. l ++ m ∷ []) h.feed ∙ append_assoc h.before (h.last ∷ h.after) (m ∷ []);
    freezing = h.freezing;
    later = All-append (λ x. freezes s x ≡ false) h.after (m ∷ []) h.later (e, tt);
    snapshot = h.snapshot;
  }

  callback-Snapshot :
      (s : Text) (ms : List (Message D)) (m : Message D) (v : Validation D)
      → v.book ≡ replay ms new_order_book
      → Snapshot s ms (find s v.frozen)
      → Snapshot s (ms ++ m ∷ []) (find s (callback reference m v).frozen)
  callback-Snapshot s ms m v b h = rw (find-callback s m v) (elim (Bool-cases (freezes s m)) [
    | inl e ↦ rw (e, b) (frozen_now s ms m e)
    | inr e ↦ rw e (Snapshot-snoc s ms m (find s v.frozen) e h)
  ])

  validate-lem :
      (s : Text) (done ms : List (Message D)) (v : Validation D)
      → v.book ≡ replay done new_order_book
      → Snapshot s done (find s v.frozen)
      → ((validate reference ms v).book ≡ replay (done ++ ms) new_order_book)
        × Snapshot s (done ++ ms) (find s (validate reference ms v).frozen)
  unfolding validate
  validate-lem s done [] v b h = rw (append-nil done) (b, h)
  validate-lem s done (m ∷ ms) v b h =
      let next =
        callback-book m v ∙ ap (on_message m) b ∙ sym (replay-snoc done m new_order_book) in
      rw (← append_assoc done (m ∷ []) ms) (
        validate-lem s (done ++ m ∷ []) ms (callback reference m v) next
          (callback-Snapshot s done m v b h))

  -- After any feed the order book is the one that the feed builds, and the snapshot of a symbol is the top
  -- of its book right after the last message that can move its book and is no later than its reference
  -- quote; a symbol without such a message has no snapshot.
  pub validate-Snapshot :
      (ms : List (Message D)) (s : Text)
      → let v = validate reference ms new_validation in
        (v.book ≡ replay ms new_order_book) × Snapshot s ms (find s v.frozen)
  unfolding replay find
  validate-Snapshot ms s = validate-lem s [] ms new_validation refl tt
