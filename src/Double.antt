-- ===== src/Double.antt =====
-- `double`, as far as the program computes with prices: a type with the comparison `<`.
-- `a > b` is `b < a`. The laws hold of every finite price and of the infinities; they fail at NaN,
-- with which the comparison of a `std::map` is no strict weak ordering either. -0.0 and 0.0 are two
-- values that neither comes before the other, so equality of prices is nowhere assumed.
use nyse_pillar_market_data.Prelude.{ℕ, ◌≡◌, ◌⊎◌, Bool, true, false, not, ◌&&◌, ltb, arith}

pub record Double (D : Type 0) : Type 0 where
  pub lt : D → D → Bool

-- `std::less<double>`, the order of the ask levels.
abbrev pub less : {D : Type 0} ⦃d : Double D⦄ → D → D → Bool
less ⦃d⦄ = d.lt

-- `std::greater<double>`, the order of the bid levels.
abbrev pub greater : {D : Type 0} ⦃d : Double D⦄ → D → D → Bool
greater ⦃d⦄ a b = d.lt b a

-- Two keys of a `std::map` are the same if neither comes before the other.
abbrev pub same {ℓ} : {K : Type ℓ} → (K → K → Bool) → K → K → Bool
same before a b = not (before a b) && not (before b a)

-- What `std::map` requires of its comparison.
pub record IsStrictWeak {ℓ} {K : Type ℓ} (before : K → K → Bool) : Type ℓ where
  pub irrefl : (a : K) → before a a ≡ false
  pub before_trans : (a b c : K) → before a b ≡ true → before b c ≡ true → before a c ≡ true
  pub before_split : (a b c : K) → before a c ≡ true → (before a b ≡ true) ⊎ (before b c ≡ true)

abbrev pub IsOrdered : (D : Type 0) ⦃d : Double D⦄ → Type 0
IsOrdered D ⦃d⦄ = IsStrictWeak d.lt

pub greater-IsStrictWeak :
    {D : Type 0} ⦃d : Double D⦄ → IsOrdered D → IsStrictWeak (greater ⦃d = d⦄)
greater-IsStrictWeak o = record {
  irrefl = λ a. o.irrefl a;
  before_trans = λ a b c p q. o.before_trans c b a q p;
  before_split = λ a b c p. ground (arith, o.before_split c b a);
}

-- Whole ticks meet the laws; the tests run on them.
abbrev pub Ticks : Type 0
Ticks = ℕ

instance abbrev pub ticks_double : Double Ticks
ticks_double = record { lt = ltb }

pub Ticks-IsOrdered : IsOrdered Ticks
Ticks-IsOrdered = record {
  irrefl = λ a. ground arith;
  before_trans = λ a b c p q. ground arith;
  before_split = λ a b c p. ground arith;
}
