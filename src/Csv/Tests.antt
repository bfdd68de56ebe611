-- ===== src/Csv/Tests.antt =====
-- The fields of a concrete line, read out of order.
use nyse_pillar_market_data.Prelude.{◌≡◌, refl, [], ◌∷◌, none, some, Text, get_elem?}
use nyse_pillar_market_data.Csv.{CsvReader, csv_reader, get_field, scan, field_start}
use nyse_pillar_market_data.Csv.Cache.{IsCached, csv_reader-IsCached}
use nyse_pillar_market_data.Csv.Split.{split, get_field-split}

-- "a,,b"
abbrev line : Text
line = b'a' ∷ b',' ∷ b',' ∷ b'b' ∷ []

-- The reader after its third field.
abbrev read : CsvReader
read = (get_field 2 (csv_reader line)).0

fields_read :
    ((get_field 2 (csv_reader line)).1 ≡ some (b'b' ∷ []))
    × ((get_field 0 read).1 ≡ some (b'a' ∷ []))
    × ((get_field 1 read).1 ≡ some [])
    × ((get_field 3 read).1 ≡ none)
unfolding get_field scan field_start
fields_read = (refl, refl, refl, refl)

read-IsCached : IsCached read
read-IsCached = (get_field-split 2 (csv_reader line) (csv_reader-IsCached line)).1

get_field-split_example :
    let (r, field) = get_field 1 read in (field ≡ get_elem? (split read.csv_line) 1) × IsCached r
get_field-split_example = get_field-split 1 read read-IsCached
