-- ===== src/Csv/Split.antt =====
-- `GetField` gives the fields of the line: what is left of it between its commas.
use nyse_pillar_market_data.Prelude.{
  ℕ, zero, suc, ◌+◌, ◌-◌, ◌≡◌, refl, sym, ◌∙◌, inl, inr, List, [], ◌∷◌, some, Text, arith, map,
  length, get_elem?, ◌==◌, Bool-cases, if◌then◌else◌,
}
use nyse_pillar_market_data.Csv.{CsvReader, take, position_or, get_field}
use nyse_pillar_market_data.Csv.Cache.{
  commas_from, start_of, text_between, nth_field, IsCached, get_field-nth_field,
}

-- A byte in front of the first field.
abbrev pub glue : ℕ → List Text → List Text
glue b [] = (b ∷ []) ∷ []
glue b (f ∷ fs) = (b ∷ f) ∷ fs

-- A line split at its commas; the empty line has one field, which is empty.
unfoldable pub split : Text → List Text
split [] = [] ∷ []
split (b ∷ t) = let rest = split t in if b == b',' then [] ∷ rest else glue b rest

commas_from-suc : (k : ℕ) (t : Text) → commas_from (suc k) t ≡ map suc (commas_from k t)
unfolding commas_from
commas_from-suc k [] = refl
commas_from-suc k (b ∷ t) =
    let e : suc k + 1 ≡ suc (k + 1) = omega arith in ground (arith, e, commas_from-suc (k + 1) t)

position_or-map :
    (size m : ℕ) (commas : List ℕ)
    → position_or (suc size) (map suc commas) m ≡ suc (position_or size commas m)
position_or-map size m [] = refl
position_or-map size zero (c ∷ cs) = refl
position_or-map size (suc m) (c ∷ cs) = position_or-map size m cs

text_between-cons :
    (b : ℕ) (t : Text) (start end : ℕ)
    → text_between (b ∷ t) (suc start) (suc end) ≡ text_between t start end
text_between-cons b t start end =
    let e : suc end - suc start ≡ end - start = omega arith in ground (arith, e)

text_between-zero : (t : Text) (end : ℕ) → text_between t 0 end ≡ some (take end t)
text_between-zero t end = let e : end - 0 ≡ end = omega arith in ground (arith, e)

get_elem?-glue-zero :
    (b : ℕ) (fs : List Text) {f : Text}
    → get_elem? fs 0 ≡ some f
    → get_elem? (glue b fs) 0 ≡ some (b ∷ f)
get_elem?-glue-zero b [] h = ground arith
get_elem?-glue-zero b (f ∷ fs) h = ground arith

get_elem?-glue-suc :
    (b n : ℕ) (fs : List Text) → get_elem? (glue b fs) (suc n) ≡ get_elem? fs (suc n)
get_elem?-glue-suc b n [] = refl
get_elem?-glue-suc b n (f ∷ fs) = refl

-- The commas of a line with one more byte in front.
abbrev shifted : Text → List ℕ
shifted t = map suc (commas_from 0 t)

commas_from-cons :
    (b : ℕ) (t : Text) → commas_from 0 (b ∷ t) ≡ (if b == b',' then 0 ∷ shifted t else shifted t)
unfolding commas_from
commas_from-cons b t = ground (arith, commas_from-suc 0 t)

start_of-shifted :
    (size n : ℕ) (commas : List ℕ)
    → start_of (suc size) (map suc commas) (suc n) ≡ suc (start_of size commas (suc n))
start_of-shifted size n commas = omega (arith, position_or-map size n commas)

start_of-comma :
    (size n : ℕ) (commas : List ℕ)
    → start_of (suc size) (0 ∷ map suc commas) (suc n) ≡ suc (start_of size commas n)
start_of-comma size zero commas = refl
start_of-comma size (suc n) commas = omega (arith, position_or-map size n commas)

module _ (b : ℕ) (t : Text)
    (ih : (n : ℕ) → nth_field t (commas_from 0 t) n ≡ get_elem? (split t) n) where
  nth_field-comma : (n : ℕ) → nth_field (b ∷ t) (0 ∷ shifted t) n ≡ get_elem? ([] ∷ split t) n
  unfolding nth_field
  nth_field-comma zero = ground arith
  nth_field-comma (suc n) =
      let size = length t in
      let commas = commas_from 0 t in
      rw (start_of-comma size n commas, position_or-map size n commas)
        (text_between-cons b t (start_of size commas n) (position_or size commas n) ∙ ih n)

  nth_field-other : (n : ℕ) → nth_field (b ∷ t) (shifted t) n ≡ get_elem? (glue b (split t)) n
  unfolding nth_field
  nth_field-other zero =
      let size = length t in
      let commas = commas_from 0 t in
      let end = position_or size commas 0 in
      rw (position_or-map size 0 commas) (
        text_between-zero (b ∷ t) (suc end)
        ∙ sym (
            get_elem?-glue-zero b (split t) {f = take end t}
              (sym (ih 0) ∙ text_between-zero t end)))
  nth_field-other (suc n) =
      let size = length t in
      let commas = commas_from 0 t in
      rw (start_of-shifted size n commas, position_or-map size (suc n) commas)
        (text_between-cons b t (start_of size commas (suc n)) (position_or size commas (suc n))
          ∙ ih (suc n)
          ∙ sym (get_elem?-glue-suc b n (split t)))

nth_field-split : (t : Text) (n : ℕ) → nth_field t (commas_from 0 t) n ≡ get_elem? (split t) n
unfolding nth_field split commas_from
nth_field-split [] zero = ground arith
nth_field-split [] (suc n) = ground arith
nth_field-split (b ∷ t) n = elim (Bool-cases (b == b',')) [
  | inl e ↦ rw (commas_from-cons b t, e) (nth_field-comma b t (nth_field-split t) n)
  | inr e ↦ rw (commas_from-cons b t, e) (nth_field-other b t (nth_field-split t) n)
]

-- `GetField` gives the field of that number of the line split at its commas, and fails where there are
-- fewer fields, whatever fields were read before and in whatever order; and it leaves the cache valid.
pub get_field-split :
    (n : ℕ) (r : CsvReader)
    → IsCached r
    → let (r', field) = get_field n r in (field ≡ get_elem? (split r.csv_line) n) × IsCached r'
get_field-split n r v =
    let (field, valid) = get_field-nth_field n r v in (field ∙ nth_field-split r.csv_line n, valid)
