-- ===== src/Examples/Loaders/Last.antt =====
-- A loader that fills a map line by line keeps the last record of each symbol.
use nyse_pillar_market_data.Prelude.{
  ◌≡◌, refl, ap, ◌∙◌, ◌&&◌, List, [], ◌∷◌, Option, none, some, Text, text_eq, arith, map,
  if◌then◌else◌,
}
use nyse_pillar_market_data.Map.{Map, find, assign}
use nyse_pillar_market_data.Map.Laws.{find-assign}
use nyse_pillar_market_data.Csv.{csv_reader, get_field}
use nyse_pillar_market_data.Csv.Fields.{StdNumbers, value, unexpected}
use nyse_pillar_market_data.Wire.Reference.{wire_stock_summary, wire_quote}
use nyse_pillar_market_data.Examples.{StdMath, has_type}
use nyse_pillar_market_data.Examples.Loaders.{
  ReferenceSummary, ReferenceQuote, summary_of, quote_of, load_summary_line, load_summary_lines,
  load_quote_line, load_quote_lines,
}

-- The last value that is published for a symbol.
abbrev pub last_for : {V : Type 0} → Text → List (Option (Text × V)) → Option V
last_for s [] = none
last_for s (o ∷ os) = elim (last_for s os) [
  | some v ↦ some v
  | none ↦ elim o [ none ↦ none | some (k, v) ↦ if text_eq.beq k s then some v else none ]
]

module _ {V : Type 0} where
  -- A record into the map, if there is one.
  abbrev file : Option (Text × V) → Map Text V → Map Text V
  file none m = m
  file (some (k, v)) m = assign k v m

  abbrev file_all : List (Option (Text × V)) → Map Text V → Map Text V
  file_all [] m = m
  file_all (o ∷ os) m = file_all os (file o m)

  abbrev or_else : Option V → Option V → Option V
  or_else none y = y
  or_else (some x) y = some x

  find-file_all :
      (s : Text) (os : List (Option (Text × V))) (m : Map Text V)
      → find s (file_all os m) ≡ or_else (last_for s os) (find s m)
  find-file_all s [] m = refl
  find-file_all s (none ∷ os) m = ground (arith, find-file_all s os m)
  find-file_all s (some (k, v) ∷ os) m =
      ground (arith, find-file_all s os (assign k v m), find-assign k s v m)

module _ {D : Type 0} (lib : StdNumbers D) where
  -- What a line publishes: a Stock Summary (223) that decodes.
  unfoldable pub published_summary : Text → Option (Text × ReferenceSummary D)
  published_summary line =
      let (reader, msg_type) = get_field 0 (csv_reader line) in
      if has_type (b'2' ∷ b'2' ∷ b'3' ∷ []) msg_type
      then (elim (wire_stock_summary lib 0 reader).1 [
        | unexpected e ↦ none
        | value m ↦ some (m.symbol, summary_of m)
      ])
      else none

  -- A Quote (140) that decodes and is not the zero quote of the close.
  unfoldable pub published_quote : StdMath D → Text → Option (Text × ReferenceQuote D)
  published_quote math line =
      let (reader, msg_type) = get_field 0 (csv_reader line) in
      if has_type (b'1' ∷ b'4' ∷ b'0' ∷ []) msg_type
      then (elim (wire_quote lib 0 reader).1 [
        | unexpected e ↦ none
        | value m ↦
            if math.is_zero m.ask_price && math.is_zero m.bid_price
            then none
            else some (m.header.symbol, quote_of m)
      ])
      else none

  load_summary_line-file :
      (l : Text) (m : Map Text (ReferenceSummary D))
      → load_summary_line lib l m ≡ file (published_summary l) m
  unfolding load_summary_line published_summary
  load_summary_line-file l m = ground arith

  load_quote_line-file :
      (math : StdMath D) (l : Text) (m : Map Text (ReferenceQuote D))
      → load_quote_line lib math l m ≡ file (published_quote math l) m
  unfolding load_quote_line published_quote
  load_quote_line-file math l m = ground arith

  load_summary_lines-file_all :
      (ls : List Text) (m : Map Text (ReferenceSummary D))
      → load_summary_lines lib ls m ≡ file_all (map published_summary ls) m
  unfolding load_summary_lines
  load_summary_lines-file_all [] m = refl
  load_summary_lines-file_all (l ∷ ls) m =
      load_summary_lines-file_all ls (load_summary_line lib l m)
      ∙ ap (file_all (map published_summary ls)) (load_summary_line-file l m)

  load_quote_lines-file_all :
      (math : StdMath D) (ls : List Text) (m : Map Text (ReferenceQuote D))
      → load_quote_lines lib math ls m ≡ file_all (map (published_quote math) ls) m
  unfolding load_quote_lines
  load_quote_lines-file_all math [] m = refl
  load_quote_lines-file_all math (l ∷ ls) m =
      load_quote_lines-file_all math ls (load_quote_line lib math l m)
      ∙ ap (file_all (map (published_quote math) ls)) (load_quote_line-file math l m)

  -- `LoadStockSummary` gives for each symbol its last record that decodes, and `LoadLastQuote` the last
  -- quote that decodes and is not the zero quote of the close.
  pub load-last_for :
      (math : StdMath D) (lines : List Text) (s : Text)
      → (find s (load_summary_lines lib lines []) ≡ last_for s (map published_summary lines))
        × (find s (load_quote_lines lib math lines [])
            ≡ last_for s (map (published_quote math) lines))
  unfolding find
  load-last_for math lines s = (
    ground (
      arith,
      load_summary_lines-file_all lines [],
      find-file_all s (map published_summary lines) [],
    ),
    ground (
      arith,
      load_quote_lines-file_all math lines [],
      find-file_all s (map (published_quote math) lines) [],
    ),
  )
