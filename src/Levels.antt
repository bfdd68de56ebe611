-- ===== src/Levels.antt =====
-- `std::map<double, std::uint64_t, Compare>` as the list of its entries in key order, and the two
-- level operations of model/order_book.cpp, for one side of a book: `before` is `Compare`.
pub mod Laws
pub mod Take
pub mod RoundTrip
mod Tests
use nyse_pillar_market_data.Prelude.{
  ℕ, ◌+◌, ◌-◌, ◌<◌, ◌≡◌, Bool, true, List, [], ◌∷◌, Option, none, some, All, ltb, ◌==◌,
  if◌then◌else◌,
}
use nyse_pillar_market_data.Prelude.Word.{add64}
use nyse_pillar_market_data.Double.{same}

abbrev pub Levels : Type 0 → Type 0
Levels D = List (D × ℕ)

module _ {D : Type 0} (before : D → D → Bool) where
  -- `levels.find(price)`.
  unfoldable pub find_level : D → Levels D → Option ℕ
  find_level p [] = none
  find_level p ((q, w) ∷ l) = if same before q p then some w else find_level p l

  -- `levels[price] += volume`: a price that is not there starts at 0.
  unfoldable pub add_volume : D → ℕ → Levels D → Levels D
  add_volume p v [] = (p, add64 0 v) ∷ []
  add_volume p v ((q, w) ∷ l) =
      let rest = add_volume p v l in
      if before p q
      then (p, add64 0 v) ∷ (q, w) ∷ l
      else (if before q p then (q, w) ∷ rest else (q, add64 w v) ∷ l)

  -- `it->second = volume` at the entry of the price.
  unfoldable pub set_volume : D → ℕ → Levels D → Levels D
  set_volume p v [] = []
  set_volume p v ((q, w) ∷ l) = if same before q p then (q, v) ∷ l else (q, w) ∷ set_volume p v l

  -- `levels.erase(it)` at the entry of the price.
  unfoldable pub erase_level : D → Levels D → Levels D
  erase_level p [] = []
  erase_level p ((q, w) ∷ l) = if same before q p then l else (q, w) ∷ erase_level p l

  -- One side of `RemoveLevel`; `none` is `false`, with the levels unchanged.
  unfoldable pub take_volume : D → ℕ → Levels D → Option (Levels D)
  take_volume p v l = elim (find_level p l) [
    | none ↦ none
    | some w ↦
        if ltb w v
        then none
        else (if (w - v) == 0 then some (erase_level p l) else some (set_volume p (w - v) l))
  ]

  -- The keys come in strict order.
  abbrev pub IsAhead : D → Levels D → Type 0
  IsAhead p = All (λ x. before p x.0 ≡ true)

  abbrev pub IsSorted : Levels D → Type 0
  IsSorted [] = Unit
  IsSorted ((q, w) ∷ l) = IsAhead q l × IsSorted l

-- The volume at a price, 0 where there is no level.
abbrev pub volume_of : Option ℕ → ℕ
volume_of none = 0
volume_of (some w) = w

abbrev pub IsPositive : {D : Type 0} → Levels D → Type 0
IsPositive = All (λ x. 0 < x.1)
