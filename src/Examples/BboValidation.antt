-- ===== src/Examples/BboValidation.antt =====
-- examples/bbo-validation/main.cpp: the callback that freezes the top of the book of each symbol, and the
-- comparison of what it froze with the reference quotes. What it prints is left out, but for the number
-- of examples that it prints.
pub mod Frozen
pub mod Counts
pub mod Main
mod Tests
use nyse_pillar_market_data.Prelude.{
  ℕ, Bool, true, false, not, ◌&&◌, List, [], ◌∷◌, Option, none, some, Text, text_eq, ltb, leb, ◌==◌,
  if◌then◌else◌,
}
use nyse_pillar_market_data.Prelude.Word.{add64}
use nyse_pillar_market_data.Double.{Double}
use nyse_pillar_market_data.Map.{Map, find, assign}
use nyse_pillar_market_data.Message.{
  Message, add_order, modify_order, delete_order, order_execution, replace_order, add_order_refresh,
}
use nyse_pillar_market_data.OrderBook.Book.{OrderBook, TopOfBook, PriceLevel, new_order_book}
use nyse_pillar_market_data.OrderBook.Dispatch.{on_message, get_top_of_book}
use nyse_pillar_market_data.Examples.Counting.{add_bool}
use nyse_pillar_market_data.Examples.{StdMath, nearly_equal}
use nyse_pillar_market_data.Examples.Loaders.{ReferenceQuote}

pub record BookEventMeta : Type 0 where
  pub symbol : Text
  pub nanos_since_midnight : ℕ
  pub mutates_book : Bool

abbrev mutating : Text → ℕ → BookEventMeta
mutating symbol nanos = record {
  symbol = symbol;
  nanos_since_midnight = nanos;
  mutates_book = true;
}

abbrev pub extract_book_event_meta : {D : Type 0} → Message D → BookEventMeta
extract_book_event_meta (add_order m) = mutating m.symbol m.nanos_since_midnight
extract_book_event_meta (modify_order m) = mutating m.symbol m.nanos_since_midnight
extract_book_event_meta (delete_order m) = mutating m.symbol m.nanos_since_midnight
extract_book_event_meta (order_execution m) = mutating m.symbol m.nanos_since_midnight
extract_book_event_meta (replace_order m) = mutating m.symbol m.nanos_since_midnight
extract_book_event_meta (add_order_refresh m) = mutating m.symbol m.nanos_since_midnight
extract_book_event_meta _ = record { symbol = []; nanos_since_midnight = 0; mutates_book = false }

-- What the callback captures by reference.
pub record Validation (D : Type 0) : Type 0 where
  pub book : OrderBook D
  pub frozen : Map Text (TopOfBook D)

abbrev pub new_validation : {D : Type 0} → Validation D
new_validation = record { book = new_order_book; frozen = [] }

-- The tally of the comparison loop.
pub record Tally : Type 0 where
  pub compared : ℕ
  pub bid_price_match : ℕ
  pub bid_volume_match : ℕ
  pub ask_price_match : ℕ
  pub ask_volume_match : ℕ
  pub mismatch_examples : ℕ

abbrev pub no_tally : Tally
no_tally = record {
  compared = 0;
  bid_price_match = 0;
  bid_volume_match = 0;
  ask_price_match = 0;
  ask_volume_match = 0;
  mismatch_examples = 0;
}

module _ {D : Type 0} ⦃d : Double D⦄ (math : StdMath D) where
  abbrev pub price_ok : Option (PriceLevel D) → D → Bool
  price_ok none price = false
  price_ok (some level) price = nearly_equal math level.price price

module _ {D : Type 0} where
  abbrev pub volume_ok : Option (PriceLevel D) → ℕ → Bool
  volume_ok none volume = false
  volume_ok (some level) volume = level.aggregate_volume == volume

  abbrev pub is_empty : Option (PriceLevel D) → Bool
  is_empty none = true
  is_empty (some level) = false

module _ {D : Type 0} ⦃d : Double D⦄ (reference : Map Text (ReferenceQuote D)) where
  -- The callback of the engine.
  unfoldable pub callback : Message D → Validation D → Validation D
  callback m v =
      let book = on_message m v.book in
      let meta = extract_book_event_meta m in
      let frozen = v.frozen in
      record {
        book = book;
        frozen = if not meta.mutates_book then frozen else (elim (find meta.symbol reference) [
          | none ↦ frozen
          | some ref ↦
              if leb meta.nanos_since_midnight ref.nanos_since_midnight
              then assign meta.symbol (get_top_of_book meta.symbol book) frozen
              else frozen
        ]);
      }

  unfoldable pub validate : List (Message D) → Validation D → Validation D
  validate [] v = v
  validate (m ∷ ms) v = validate ms (callback m v)

  module _ (math : StdMath D) where
    unfoldable pub compare_entry : Text → TopOfBook D → Tally → Tally
    compare_entry symbol top t = elim (find symbol reference) [
      | none ↦ t
      | some ref ↦
          let bid_price_ok = price_ok math top.best_bid ref.bid_price in
          let ask_price_ok = price_ok math top.best_ask ref.ask_price in
          if is_empty top.best_bid && is_empty top.best_ask then t else record {
            compared = add64 t.compared 1;
            bid_price_match = add_bool t.bid_price_match bid_price_ok;
            bid_volume_match = add_bool t.bid_volume_match (volume_ok top.best_bid ref.bid_volume);
            ask_price_match = add_bool t.ask_price_match ask_price_ok;
            ask_volume_match = add_bool t.ask_volume_match (volume_ok top.best_ask ref.ask_volume);
            mismatch_examples =
                if not (bid_price_ok && ask_price_ok) && ltb t.mismatch_examples 5
                then add64 t.mismatch_examples 1
                else t.mismatch_examples;
          }
    ]

    unfoldable pub compare_entries : Map Text (TopOfBook D) → Tally → Tally
    compare_entries [] t = t
    compare_entries ((symbol, top) ∷ entries) t =
        compare_entries entries (compare_entry symbol top t)
