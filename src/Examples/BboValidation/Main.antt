-- ===== src/Examples/BboValidation/Main.antt =====
-- examples/bbo-validation/main.cpp: `main`, over every interleaving of the engine that it runs, and the
-- same program without threads.
use nyse_pillar_market_data.Prelude.{
  ℕ, ◌%◌, ◌≡◌, ◌∙◌, Bool, if◌then◌else◌, refl, ◌⊎◌, inl, inr, Option-cases, true, false, ◌&&◌, none,
  some, Text, text_eq, arith, length,
}
use nyse_pillar_market_data.Prelude.Word.{u64_mod}
use nyse_pillar_market_data.Double.{Double}
use nyse_pillar_market_data.Map.{Map, find}
use nyse_pillar_market_data.Message.{Message}
use nyse_pillar_market_data.OrderBook.Dispatch.{get_book_build_failures}
use nyse_pillar_market_data.Sequence.{ParserData}
use nyse_pillar_market_data.Csv.Fields.{StdNumbers}
use nyse_pillar_market_data.Engine.Lifetime.{LifetimeState, get_total, get_egress_count}
use nyse_pillar_market_data.Examples.{StdMath}
use nyse_pillar_market_data.Examples.Loaders.{ReferenceQuote, load_last_quote}
use nyse_pillar_market_data.Examples.Program.{
  File, exists, open_file, lines_of, Exit, failure, aborted, success, IsJoined, IsJoined-feed,
  feed_of,
}
use nyse_pillar_market_data.Examples.BboValidation.Frozen.{Snapshot, validate-Snapshot}
use nyse_pillar_market_data.Examples.BboValidation.{
  Validation, new_validation, validate, Tally, no_tally, compare_entries,
}

-- The numbers that are printed.
pub record Report : Type 0 where
  pub reference_symbols : ℕ
  pub lines_parsed : ℕ
  pub messages_delivered : ℕ
  pub tally : Tally
  pub book_build_failures : ℕ

module _ {D : Type 0} ⦃d : Double D⦄ (math : StdMath D) where
  abbrev pub report : Map Text (ReferenceQuote D) → ℕ → ℕ → Validation D → Report
  report reference lines_parsed messages_delivered v = record {
    reference_symbols = length reference;
    lines_parsed = lines_parsed;
    messages_delivered = messages_delivered;
    tally = compare_entries reference math v.frozen no_tally;
    book_build_failures = get_book_build_failures v.book;
  }

module _ {D : Type 0} ⦃d : Double D⦄ (lib : StdNumbers D) (math : StdMath D) where
  module _ (integrated bbo : File) where
    abbrev pub both_exist : Bool
    both_exist = exists integrated && exists bbo

    -- A run of `main` and how it ends.
    pub data Main (exit : Exit Report) : Type 0 where
      misses : both_exist ≡ false → exit ≡ failure → Main exit
      no_reference :
          both_exist ≡ true
          → load_last_quote lib math (open_file bbo) ≡ none
          → exit ≡ aborted
          → Main exit
      finishes :
          (reference : Map Text (ReferenceQuote D)) (s : LifetimeState (Message D) Text ParserData)
          → both_exist ≡ true
          → load_last_quote lib math (open_file bbo) ≡ some reference
          → IsJoined lib integrated s
          → exit
            ≡ success (
                report math reference
                  (get_total s)
                  (get_egress_count s)
                  (validate reference s.delivered new_validation))
          → Main exit

    -- `main` without threads.
    unfoldable pub sequential : Exit Report
    sequential =
        if exists integrated && exists bbo
        then (elim (load_last_quote lib math (open_file bbo)) [
          | none ↦ aborted
          | some reference ↦ success (
              report math reference (length (lines_of integrated) % u64_mod)
                (length (feed_of lib integrated) % u64_mod)
                (validate reference (feed_of lib integrated) new_validation))
        ])
        else failure

    Main-eq : {exit : Exit Report} → Main exit → exit ≡ sequential
    unfolding sequential
    Main-eq (misses e h) = ground arith
    Main-eq (no_reference e r h) = ground arith
    Main-eq (finishes reference s e r j h) =
        let (taken, count, total) = IsJoined-feed lib integrated s j in
        h ∙ rw (e, r, taken, count, total) refl

    -- Whatever the interleaving of the engine's threads, `main` ends as the program without threads does:
    -- with 1 if a file is missing; by an exception if the reference cannot be opened; and else with its
    -- report. The snapshot of a symbol that the report is made of is the top of its book right after the last
    -- message that can move it and is no later than its reference quote, over the messages of the feed's
    -- lines in order, and a symbol without such a message has no snapshot. A feed that cannot be opened has no
    -- lines.
    pub bbo_main-Snapshot :
        {exit : Exit Report} (symbol : Text)
        → Main exit
        → (exit ≡ sequential)
          × ((load_last_quote lib math (open_file bbo) ≡ none)
              ⊎ ((reference : Map Text (ReferenceQuote D)) × (load_last_quote lib math
                      (open_file bbo)
                    ≡ some reference)
                  × Snapshot reference symbol (feed_of lib integrated) (
                      find symbol
                        (validate reference (feed_of lib integrated) new_validation).frozen)))
    bbo_main-Snapshot symbol m = (
      Main-eq m,
      elim (Option-cases (load_last_quote lib math (open_file bbo))) [
        | inl e ↦ inl e
        | inr (reference, e) ↦
            inr (reference, e, (validate-Snapshot reference (feed_of lib integrated) symbol).1)
      ],
    )
