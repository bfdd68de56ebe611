-- ===== src/Examples/BboValidation/Counts.antt =====
-- The counters of the comparison are numbers of frozen symbols.
use nyse_pillar_market_data.Prelude.{
  refl, ◌+◌, ◌<◌, ◌≤◌, ◌≡◌, Bool, true, false, ◌&&◌, [], ◌∷◌, none, some, Text, text_eq, arith,
  length, if◌then◌else◌,
}
use nyse_pillar_market_data.Prelude.Word.{u64_mod}
use nyse_pillar_market_data.Double.{Double}
use nyse_pillar_market_data.Map.{Map, find}
use nyse_pillar_market_data.OrderBook.Book.{TopOfBook}
use nyse_pillar_market_data.Examples.Counting.{
  count_if, count_if-le, count_if-length, fold, fold-count_if, fold-le,
}
use nyse_pillar_market_data.Examples.{StdMath}
use nyse_pillar_market_data.Examples.Loaders.{ReferenceQuote}
use nyse_pillar_market_data.Examples.BboValidation.{
  Tally, no_tally, price_ok, volume_ok, is_empty, compare_entry, compare_entries,
}

module _ {D : Type 0} ⦃d : Double D⦄ (reference : Map Text (ReferenceQuote D))
    (math : StdMath D) where
  -- A test on a snapshot that is not empty and whose symbol has a reference quote.
  abbrev pub passes : (TopOfBook D → ReferenceQuote D → Bool) → Text × TopOfBook D → Bool
  passes test entry = elim (find entry.0 reference) [
    | none ↦ false
    | some ref ↦
        if is_empty entry.1.best_bid && is_empty entry.1.best_ask then false else test entry.1 ref
  ]

  abbrev pub is_compared : Text × TopOfBook D → Bool
  is_compared = passes (λ top ref. true)

  abbrev pub bid_price_test : TopOfBook D → ReferenceQuote D → Bool
  bid_price_test top ref = price_ok math top.best_bid ref.bid_price

  abbrev pub bid_price_matches : Text × TopOfBook D → Bool
  bid_price_matches = passes bid_price_test

  abbrev pub bid_volume_test : TopOfBook D → ReferenceQuote D → Bool
  bid_volume_test top ref = volume_ok top.best_bid ref.bid_volume

  abbrev pub bid_volume_matches : Text × TopOfBook D → Bool
  bid_volume_matches = passes bid_volume_test

  abbrev pub ask_price_test : TopOfBook D → ReferenceQuote D → Bool
  ask_price_test top ref = price_ok math top.best_ask ref.ask_price

  abbrev pub ask_price_matches : Text × TopOfBook D → Bool
  ask_price_matches = passes ask_price_test

  abbrev pub ask_volume_test : TopOfBook D → ReferenceQuote D → Bool
  ask_volume_test top ref = volume_ok top.best_ask ref.ask_volume

  abbrev pub ask_volume_matches : Text × TopOfBook D → Bool
  ask_volume_matches = passes ask_volume_test

  passes-is_compared :
      (test : TopOfBook D → ReferenceQuote D → Bool) (e : Text × TopOfBook D)
      → passes test e ≡ true
      → is_compared e ≡ true
  passes-is_compared test e h = ground arith

  abbrev round : Text × TopOfBook D → Tally → Tally
  round entry = compare_entry reference math entry.0 entry.1

  compare_entries-fold :
      (es : Map Text (TopOfBook D)) (t : Tally)
      → compare_entries reference math es t ≡ fold round es t
  unfolding compare_entries
  compare_entries-fold [] t = refl
  compare_entries-fold ((s, top) ∷ es) t = compare_entries-fold es (round (s, top) t)

  -- The counters of a round.
  round-lem :
      (e : Text × TopOfBook D) (t : Tally)
      → let t' = round e t in
        (t.compared + 1 < u64_mod → t'.compared ≡ t.compared + (if is_compared e then 1 else 0))
        × (t.bid_price_match + 1 < u64_mod
            → t'.bid_price_match ≡ t.bid_price_match + (if bid_price_matches e then 1 else 0))
        × (t.bid_volume_match + 1 < u64_mod
            → t'.bid_volume_match ≡ t.bid_volume_match + (if bid_volume_matches e then 1 else 0))
        × (t.ask_price_match + 1 < u64_mod
            → t'.ask_price_match ≡ t.ask_price_match + (if ask_price_matches e then 1 else 0))
        × (t.ask_volume_match + 1 < u64_mod
            → t'.ask_volume_match ≡ t.ask_volume_match + (if ask_volume_matches e then 1 else 0))
        × (t.mismatch_examples ≤ 5 → t'.mismatch_examples ≤ 5)
  unfolding compare_entry
  round-lem e t = (
    λ h. ground arith,
    λ h. ground arith,
    λ h. ground arith,
    λ h. ground arith,
    λ h. ground arith,
    λ h. ground arith,
  )

  at_most :
      (test : TopOfBook D → ReferenceQuote D → Bool) (es : Map Text (TopOfBook D))
      → count_if (passes test) es ≤ count_if is_compared es
  at_most test es = count_if-le (passes test) is_compared es (passes-is_compared test)

  -- The comparison counts the snapshots with a side and a reference quote, and among them those whose bid
  -- and ask prices are nearly, and whose volumes are, those of the quote; each of these is at most the
  -- number compared, and at most five mismatches are printed. The snapshots are fewer than 2^64.
  pub compare_entries-counts :
      (frozen : Map Text (TopOfBook D))
      → length frozen < u64_mod
      → let t = compare_entries reference math frozen no_tally in
        ((t.compared ≡ count_if is_compared frozen) × (t.compared ≤ length frozen))
        × ((t.bid_price_match ≡ count_if bid_price_matches frozen)
            × (t.bid_price_match ≤ t.compared))
        × ((t.bid_volume_match ≡ count_if bid_volume_matches frozen)
            × (t.bid_volume_match ≤ t.compared))
        × ((t.ask_price_match ≡ count_if ask_price_matches frozen)
            × (t.ask_price_match ≤ t.compared))
        × ((t.ask_volume_match ≡ count_if ask_volume_matches frozen)
            × (t.ask_volume_match ≤ t.compared))
        × (t.mismatch_examples ≤ 5)
  compare_entries-counts frozen few =
      let all = count_if-length is_compared frozen in
      let compared =
        fold-count_if round (λ t. t.compared) is_compared (λ e t. (round-lem e t).0) frozen no_tally
          (omega arith) in
      let bid_price =
        fold-count_if round (λ t. t.bid_price_match) bid_price_matches (λ e t. (round-lem e t).1)
          frozen no_tally (omega arith) in
      let bid_volume =
        fold-count_if round (λ t. t.bid_volume_match) bid_volume_matches (λ e t. (round-lem e t).2)
          frozen no_tally (omega arith) in
      let ask_price =
        fold-count_if round (λ t. t.ask_price_match) ask_price_matches (λ e t. (round-lem e t).3)
          frozen no_tally (omega arith) in
      let ask_volume =
        fold-count_if round (λ t. t.ask_volume_match) ask_volume_matches (λ e t. (round-lem e t).4)
          frozen no_tally (omega arith) in
      let examples =
        fold-le round (λ t. t.mismatch_examples) 5 (λ e t. (round-lem e t).5) frozen no_tally
          (omega arith) in
      rw (compare_entries-fold frozen no_tally) (
        (omega (arith, compared), omega (arith, compared, all)),
        (
          omega (arith, bid_price),
          omega (arith, compared, bid_price, at_most bid_price_test frozen),
        ),
        (
          omega (arith, bid_volume),
          omega (arith, compared, bid_volume, at_most bid_volume_test frozen),
        ),
        (
          omega (arith, ask_price),
          omega (arith, compared, ask_price, at_most ask_price_test frozen),
        ),
        (
          omega (arith, ask_volume),
          omega (arith, compared, ask_volume, at_most ask_volume_test frozen),
        ),
        examples,
      )
