-- ===== src/Csv.antt =====
-- include/schema/nyse/csv.hpp: `CSVReader` with its cache of comma positions, and how a field becomes a
-- value. `std::from_chars` is a parameter: what it reads and how many bytes, or why it reads nothing.
pub mod Fields
pub mod Bounds
pub mod Decimal
pub mod Cache
pub mod Split
mod Tests
use nyse_pillar_market_data.Prelude.{
  ℕ, zero, suc, ◌+◌, ◌-◌, ◌*◌, ◌%◌, Bool, true, false, not, ◌&&◌, ◌||◌, List, [], ◌∷◌, ◌++◌, Option,
  none, some, Text, length, get_elem?, ltb, leb, ◌==◌, if◌then◌else◌,
}
use nyse_pillar_market_data.Prelude.Word.{u64_mod}

-- `substr`.
abbrev pub take : ℕ → Text → Text
take zero t = []
take (suc n) [] = []
take (suc n) (b ∷ t) = b ∷ take n t

abbrev pub drop : ℕ → Text → Text
drop zero t = t
drop (suc n) [] = []
drop (suc n) (b ∷ t) = drop n t

abbrev pub substr : Text → ℕ → ℕ → Text
substr t start count = take count (drop start t)

-- Where a comma first stands.
abbrev pub index_of_comma : Text → Option ℕ
index_of_comma [] = none
index_of_comma (b ∷ t) =
    let rest = index_of_comma t in
    if b == b',' then some 0 else (elim rest [ none ↦ none | some i ↦ some (suc i) ])

-- `_csvLine.find(',', searchStart)`.
abbrev pub find_comma : Text → ℕ → Option ℕ
find_comma t start = elim (index_of_comma (drop start t)) [
  | none ↦ none
  | some i ↦ some (start + i)
]

pub record CsvReader : Type 0 where
  pub csv_line : Text
  pub comma_positions : List ℕ
  pub exhausted : Bool

abbrev pub csv_reader : Text → CsvReader
csv_reader line = record { csv_line = line; comma_positions = []; exhausted = false }

-- Where the next search starts: behind the last comma that is known.
abbrev pub search_start : List ℕ → ℕ
search_start [] = 0
search_start (i ∷ is) = elim is [ [] ↦ i + 1 | _ ∷ _ ↦ search_start is ]

-- The loop of `GetField`. Each round but the last finds a comma, so as many rounds as the field number
-- plus one are enough.
unfoldable pub scan : ℕ → ℕ → CsvReader → CsvReader
scan zero field_num r = r
scan (suc fuel) field_num r =
    if leb (length r.comma_positions) field_num && not r.exhausted
    then (elim (find_comma r.csv_line (search_start r.comma_positions)) [
      | none ↦ record r { exhausted = true }
      | some i ↦ scan fuel field_num (record r { comma_positions = r.comma_positions ++ i ∷ [] })
    ])
    else r

-- `_commaPositions[i]`, or the other value out of range.
abbrev pub position_or : ℕ → List ℕ → ℕ → ℕ
position_or other positions i = elim (get_elem? positions i) [ none ↦ other | some p ↦ p ]

unfoldable pub field_start : ℕ → CsvReader → ℕ
field_start zero r = 0
field_start (suc n) r = position_or (length r.csv_line) r.comma_positions n + 1

-- `GetField`: `none` is `InvalidFieldNum`.
unfoldable pub get_field : ℕ → CsvReader → CsvReader × Option Text
unfolding scan field_start
get_field field_num r =
    let scanned = scan (field_num + 1) field_num r in
    let start = field_start field_num scanned in
    let size = length scanned.csv_line in
    (
      scanned,
      if ltb size start
          then none
          else some (
              substr scanned.csv_line start
                (position_or size scanned.comma_positions field_num - start)),
    )
