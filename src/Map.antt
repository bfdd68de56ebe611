-- ===== src/Map.antt =====
-- `std::unordered_map` as an association list with at most one entry for a key.
-- A new key goes to the end; nothing proved of the program reads the order of the entries.
pub mod Laws
use nyse_pillar_market_data.Prelude.{
  ℕ, ◌+◌, ◌≡◌, List, [], ◌∷◌, Option, none, some, Eq, if◌then◌else◌,
}

abbrev pub Map {ℓ κ} : Type ℓ → Type κ → Type (ℓ ⊔ κ)
Map K V = List (K × V)

module _ {ℓ κ} {K : Type ℓ} {V : Type κ} ⦃e : Eq K⦄ where
  -- `m.find(k)`; `none` is `m.end()`.
  unfoldable pub find : K → Map K V → Option V
  find k [] = none
  find k ((j, v) ∷ m) = if e.beq j k then some v else find k m

  -- `m[k] = v`.
  unfoldable pub assign : K → V → Map K V → Map K V
  assign k v [] = (k, v) ∷ []
  assign k v ((j, w) ∷ m) = if e.beq j k then (j, v) ∷ m else (j, w) ∷ assign k v m

  -- `m.erase(m.find(k))`.
  unfoldable pub erase : K → Map K V → Map K V
  erase k [] = []
  erase k ((j, w) ∷ m) = if e.beq j k then m else (j, w) ∷ erase k m

  -- The value of `m[k]`, which is `v` where `k` is new.
  abbrev pub get_or : K → V → Map K V → V
  get_or k v m = elim (find k m) [ none ↦ v | some w ↦ w ]

  -- No key has two entries.
  abbrev pub IsDistinct : Map K V → Type κ
  IsDistinct [] = Unit
  IsDistinct ((k, v) ∷ m) = (find k m ≡ none) × IsDistinct m

-- A predicate of every value, and the sum of a measure over the values.
module _ {ℓ κ} {K : Type ℓ} {V : Type κ} where
  abbrev pub keys : Map K V → List K
  keys [] = []
  keys ((k, v) ∷ m) = k ∷ keys m

  abbrev pub AllValues {ι} : (V → Type ι) → Map K V → Type ι
  AllValues P [] = Unit
  AllValues P ((k, v) ∷ m) = P v × AllValues P m

  unfoldable pub sum_values : (V → ℕ) → Map K V → ℕ
  sum_values f [] = 0
  sum_values f ((k, v) ∷ m) = f v + sum_values f m
