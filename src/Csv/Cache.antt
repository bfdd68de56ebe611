-- ===== src/Csv/Cache.antt =====
-- The cache of `CSVReader` does not show: a field is what the positions of all commas make it, in whatever
-- order the fields are read.
use mathlib.Core.List.{append_assoc, append-nil}
use nyse_pillar_market_data.Prelude.{
  ℕ, zero, suc, ◌+◌, ◌-◌, ◌<◌, ◌≤◌, ◌≡◌, refl, ap, sym, ◌∙◌, ◌⊎◌, inl, inr, true, false, List, [],
  ◌∷◌, ◌++◌, Option, none, some, Text, arith, length, length-append, get_elem?, ltb, leb, not, ◌&&◌,
  ◌==◌, Bool-cases, Option-cases, if◌then◌else◌,
}
use nyse_pillar_market_data.Csv.{
  CsvReader, csv_reader, drop, substr, index_of_comma, find_comma, search_start, position_or, scan,
  field_start, get_field,
}

-- The positions of the commas of a text that starts at a position.
unfoldable pub commas_from : ℕ → Text → List ℕ
commas_from k [] = []
commas_from k (b ∷ t) = let rest = commas_from (k + 1) t in if b == b',' then k ∷ rest else rest

-- Where a field starts, and what stands between two positions.
abbrev pub start_of : ℕ → List ℕ → ℕ → ℕ
start_of size commas zero = 0
start_of size commas (suc n) = position_or size commas n + 1

abbrev pub text_between : Text → ℕ → ℕ → Option Text
text_between line start end =
    if ltb (length line) start then none else some (substr line start (end - start))

-- The field of a line, given the positions of its commas.
unfoldable pub nth_field : Text → List ℕ → ℕ → Option Text
nth_field line commas n =
    text_between line (start_of (length line) commas n) (position_or (length line) commas n)

commas_from-none : (k : ℕ) (t : Text) → index_of_comma t ≡ none → commas_from k t ≡ []
unfolding commas_from
commas_from-none k [] h = refl
commas_from-none k (b ∷ t) h = ground (arith, commas_from-none (k + 1) t)

commas_from-some :
    (k i : ℕ) (t : Text)
    → index_of_comma t ≡ some i
    → commas_from k t ≡ (k + i) ∷ commas_from (k + suc i) (drop (suc i) t)
unfolding commas_from
commas_from-some k i [] h = ground arith
commas_from-some k i (b ∷ t) h = elim (Bool-cases (b == b',')) [
  | inl e ↦
      let first : i ≡ 0 = ground (arith, e) in
      rw (e, first) (ap (λ x. x ∷ commas_from (k + 1) t) (omega arith))
  | inr e ↦ elim (Option-cases (index_of_comma t)) [
    | inl nothing ↦ absurd (ground (arith, e, nothing))
    | inr (j, later) ↦
        let next : i ≡ suc j = ground (arith, e, later) in
        let here : k + 1 + j ≡ k + suc j = omega arith in
        let there : k + 1 + suc j ≡ k + suc (suc j) = omega arith in
        rw (e, next, ← here, ← there) (commas_from-some (k + 1) j t later)
  ]
]

drop-nil : (n : ℕ) → drop n [] ≡ []
drop-nil zero = refl
drop-nil (suc n) = refl

drop-drop : (m n : ℕ) (t : Text) → drop n (drop m t) ≡ drop (m + n) t
drop-drop zero n t = ap (λ x. drop x t) (omega arith)
drop-drop (suc m) n [] = rw (drop-nil n, drop-nil (suc m + n)) refl
drop-drop (suc m) n (b ∷ t) =
    let e : suc (m + n) ≡ suc m + n = omega arith in drop-drop m n t ∙ ap (λ x. drop x (b ∷ t)) e

search_start-snoc : (ps : List ℕ) (i : ℕ) → search_start (ps ++ i ∷ []) ≡ i + 1
search_start-snoc [] i = refl
search_start-snoc (p ∷ []) i = refl
search_start-snoc (p ∷ q ∷ ps) i = search_start-snoc (q ∷ ps) i

-- The cache holds the first commas, the next search starts behind them, and no comma is left once the
-- line is exhausted.
pub record IsCached (r : CsvReader) : Type 0 where
  pub left : List ℕ
  pub known : commas_from 0 r.csv_line ≡ r.comma_positions ++ left
  pub behind :
      commas_from
        (search_start r.comma_positions)
        (drop (search_start r.comma_positions) r.csv_line)
      ≡ left
  pub ended : r.exhausted ≡ true → left ≡ []

pub csv_reader-IsCached : (line : Text) → IsCached (csv_reader line)
csv_reader-IsCached line = record {
  left = commas_from 0 line;
  known = refl;
  behind = refl;
  ended = λ e. cc;
}

pushed-IsCached :
    (r : CsvReader) (i : ℕ)
    → IsCached r
    → find_comma r.csv_line (search_start r.comma_positions) ≡ some i
    → IsCached (record r { comma_positions = r.comma_positions ++ i ∷ [] })
pushed-IsCached r i v e =
    let start = search_start r.comma_positions in
    elim (Option-cases (index_of_comma (drop start r.csv_line))) [
      | inl none_left ↦ absurd (ground (arith, none_left))
      | inr (j, here) ↦
          let at : i ≡ start + j = ground (arith, here) in
          let next : search_start (r.comma_positions ++ i ∷ []) ≡ start + suc j =
            search_start-snoc r.comma_positions i ∙ omega arith in
          let tail = commas_from (start + suc j) (drop (suc j) (drop start r.csv_line)) in
          let split : v.left ≡ i ∷ tail =
            sym v.behind
            ∙ commas_from-some start j (drop start r.csv_line) here
            ∙ ap (λ x. x ∷ tail) (sym at) in
          record {
            left = tail;
            known =
                v.known
                ∙ ap (λ w. r.comma_positions ++ w) split
                ∙ sym (append_assoc r.comma_positions (i ∷ []) tail);
            behind = rw (next, ← drop-drop start (suc j) r.csv_line) refl;
            ended = λ x. absurd (let h = v.ended x in cc);
          }
    ]

exhausted-IsCached :
    (r : CsvReader)
    → IsCached r
    → find_comma r.csv_line (search_start r.comma_positions) ≡ none
    → IsCached (record r { exhausted = true })
exhausted-IsCached r v e =
    let start = search_start r.comma_positions in
    let nothing : index_of_comma (drop start r.csv_line) ≡ none = ground arith in
    record {
      left = v.left;
      known = v.known;
      behind = v.behind;
      ended = λ _. sym v.behind ∙ commas_from-none start (drop start r.csv_line) nothing;
    }

-- The wanted comma is in the cache, or every comma is.
abbrev HasSearched : ℕ → CsvReader → Type 0
HasSearched n r = (n < length r.comma_positions) ⊎ (r.exhausted ≡ true)

-- With a round of fuel for each comma that is wanted, the search ends.
scan-lem :
    (fuel n : ℕ) (r : CsvReader)
    → IsCached r
    → n < length r.comma_positions + fuel
    → IsCached (scan fuel n r)
      × HasSearched n (scan fuel n r)
      × ((scan fuel n r).csv_line ≡ r.csv_line)
unfolding scan
scan-lem zero n r v h = (v, inl (omega arith), refl)
scan-lem (suc fuel) n r v h = elim (Bool-cases (leb (length r.comma_positions) n)) [
  | inr e ↦ rw e (v, inl (ground arith), refl)
  | inl e ↦ elim (Bool-cases r.exhausted) [
    | inl x ↦
        let stop : (leb (length r.comma_positions) n && not r.exhausted) ≡ false =
          ground (arith, x) in
        rw stop (v, inr x, refl)
    | inr x ↦ elim (Option-cases (find_comma r.csv_line (search_start r.comma_positions))) [
      | inl nothing ↦ rw (e, x, nothing) (exhausted-IsCached r v nothing, inr refl, refl)
      | inr (i, there) ↦
          let pushed : CsvReader = record r { comma_positions = r.comma_positions ++ i ∷ [] } in
          let longer = length-append r.comma_positions (i ∷ []) in
          rw (e, x, there) (scan-lem fuel n pushed (pushed-IsCached r i v there) (omega arith))
    ]
  ]
]

get_elem?-append :
    (xs ys : List ℕ) (i : ℕ) → i < length xs → get_elem? (xs ++ ys) i ≡ get_elem? xs i
get_elem?-append [] ys i h = absurd (omega arith)
get_elem?-append (x ∷ xs) ys zero h = refl
get_elem?-append (x ∷ xs) ys (suc i) h = get_elem?-append xs ys i (omega arith)

cached_position :
    (n m : ℕ) (r : CsvReader)
    → IsCached r
    → HasSearched n r
    → m ≤ n
    → get_elem? r.comma_positions m ≡ get_elem? (commas_from 0 r.csv_line) m
cached_position n m r v (inl h) le =
    rw v.known (sym (get_elem?-append r.comma_positions v.left m (omega arith)))
cached_position n m r v (inr x) le = rw (v.known, v.ended x, append-nil r.comma_positions) refl

pub get_field-nth_field :
    (n : ℕ) (r : CsvReader)
    → IsCached r
    → let (r', field) = get_field n r in
      (field ≡ nth_field r.csv_line (commas_from 0 r.csv_line) n) × IsCached r'
unfolding get_field field_start nth_field
get_field-nth_field zero r v =
    let (valid, searched, same) = scan-lem (zero + 1) zero r v (omega arith) in
    (ground (arith, same, cached_position zero zero _ valid searched (omega arith)), valid)
get_field-nth_field (suc n) r v =
    let (valid, searched, same) = scan-lem (suc n + 1) (suc n) r v (omega arith) in
    let before = cached_position (suc n) n _ valid searched (omega arith) in
    let at = cached_position (suc n) (suc n) _ valid searched (omega arith) in
    (ground (arith, same, before, at), valid)
