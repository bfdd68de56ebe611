-- ===== src/Csv/Fields.antt =====
-- include/schema/nyse/csv.hpp: the values of fields, `parse_std_type`, `parse_source_time` and
-- `PopulateField`. A decoder changes the reader and gives a value or the error that it throws.
use nyse_pillar_market_data.Prelude.{
  ℕ, ◌+◌, ◌*◌, ◌%◌, Bool, false, not, ◌&&◌, [], ◌∷◌, Option, none, some, Text, length, get_elem?,
  ◌==◌, if◌then◌else◌,
}
use nyse_pillar_market_data.Prelude.Word.{u64_mod}
use nyse_pillar_market_data.Csv.{CsvReader, get_field, substr}

pub data ParseError : Type 0 where
  invalid_number out_of_range trailing_characters : ParseError

pub data ErrorKind : Type 0 where
  field_not_found invalid_char_count parse_failure : ErrorKind

-- What `std::from_chars` answers: the value and the number of bytes read, or an error.
pub data FromChars (A : Type 0) : Type 0 where
  parsed : A → ℕ → FromChars A
  invalid_argument result_out_of_range : FromChars A

pub record StdNumbers (D : Type 0) : Type 0 where
  pub from_chars_u8 : Text → FromChars ℕ
  pub from_chars_u64 : Text → FromChars ℕ
  pub from_chars_double : Text → FromChars D

pub data Expected (E A : Type 0) : Type 0 where
  value : A → Expected E A
  unexpected : E → Expected E A

unfoldable pub parse_std_type : {A : Type 0} → (Text → FromChars A) → Text → Expected ParseError A
parse_std_type from_chars text = elim (from_chars text) [
  | invalid_argument ↦ unexpected invalid_number
  | result_out_of_range ↦ unexpected out_of_range
  | parsed v count ↦ if count == length text then value v else unexpected trailing_characters
]

pub record SourceTime : Type 0 where
  pub nanos_since_midnight : ℕ

abbrev pub byte_is : Text → ℕ → ℕ → Bool
byte_is text i b = elim (get_elem? text i) [ none ↦ false | some c ↦ c == b ]

abbrev pub nanos_per_second : ℕ
nanos_per_second = 1000000000

unfoldable pub parse_source_time : (Text → FromChars ℕ) → Text → Expected ParseError SourceTime
unfolding parse_std_type
parse_source_time from_chars text =
    if not
      ((length text == 18) && byte_is text 2 b':' && byte_is text 5 b':' && byte_is text 8 b'.')
    then unexpected invalid_number
    else (elim (parse_std_type from_chars (substr text 0 2)) [
      | unexpected e ↦ unexpected invalid_number
      | value hours ↦ elim (parse_std_type from_chars (substr text 3 2)) [
        | unexpected e ↦ unexpected invalid_number
        | value minutes ↦ elim (parse_std_type from_chars (substr text 6 2)) [
          | unexpected e ↦ unexpected invalid_number
          | value seconds ↦ elim (parse_std_type from_chars (substr text 9 9)) [
            | unexpected e ↦ unexpected invalid_number
            | value nanos ↦ value (record {
              nanos_since_midnight =
                  (hours * (3600 * nanos_per_second)
                    + minutes * (60 * nanos_per_second)
                    + seconds * nanos_per_second
                    + nanos)
                  % u64_mod;
            })
          ]
        ]
      ]
    ])

-- `CSVReader::Error`, with the index of the field.
pub record Error : Type 0 where
  pub kind : ErrorKind
  pub field_index : ℕ

abbrev pub Decode : Type 0 → Type 0
Decode A = CsvReader → CsvReader × Expected Error A

infixl 5 ◌>>=◌
abbrev pub ◌>>=◌ : {A B : Type 0} → Decode A → (A → Decode B) → Decode B
(m >>= f) r = let (r', a) = m r in elim a [ value x ↦ f x r' | unexpected e ↦ (r', unexpected e) ]

abbrev pub return : {A : Type 0} → A → Decode A
return a r = (r, value a)

abbrev pub throw : {A : Type 0} → ErrorKind → ℕ → Decode A
throw kind idx r = (r, unexpected (record { kind = kind; field_index = idx }))

unfoldable pub populate_string : ℕ → Decode Text
populate_string idx r =
    let (r', field) = get_field idx r in
    elim field [ none ↦ throw field_not_found idx r' | some t ↦ return t r' ]

unfoldable pub populate_char : ℕ → Decode ℕ
unfolding populate_string
populate_char idx = do
  text ← populate_string idx
  elim text [
    | [] ↦ throw invalid_char_count idx
    | c ∷ rest ↦ elim rest [ [] ↦ return c | _ ∷ _ ↦ throw invalid_char_count idx ]
  ]

-- A parser of fields: `parse_std_type` or `parse_source_time`.
unfoldable pub populate_with : {A : Type 0} → (Text → Expected ParseError A) → ℕ → Decode A
unfolding populate_string
populate_with parse idx = do
  text ← populate_string idx
  elim (parse text) [ value a ↦ return a | unexpected e ↦ throw parse_failure idx ]

-- An empty field is `std::nullopt`; the inner field is read again.
unfoldable pub populate_optional : {A : Type 0} → (ℕ → Decode A) → ℕ → Decode (Option A)
unfolding populate_string
populate_optional inner idx = do
  text ← populate_string idx
  elim text [ [] ↦ return none | _ ∷ _ ↦ do a ← inner idx; return (some a) ]

module _ {D : Type 0} (lib : StdNumbers D) where
  abbrev pub populate_u8 : ℕ → Decode ℕ
  populate_u8 = populate_with (parse_std_type lib.from_chars_u8)

  abbrev pub populate_u64 : ℕ → Decode ℕ
  populate_u64 = populate_with (parse_std_type lib.from_chars_u64)

  abbrev pub populate_double : ℕ → Decode D
  populate_double = populate_with (parse_std_type lib.from_chars_double)

  abbrev pub populate_source_time : ℕ → Decode SourceTime
  populate_source_time = populate_with (parse_source_time lib.from_chars_u64)
