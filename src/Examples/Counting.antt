-- ===== src/Examples/Counting.antt =====
-- Counters: what the comparison loops add up, and how many elements of a list pass a test.
use nyse_pillar_market_data.Prelude.{
  ℕ, ◌+◌, ◌<◌, ◌≤◌, ◌≡◌, Bool, true, List, [], ◌∷◌, arith, length, if◌then◌else◌,
}
use nyse_pillar_market_data.Prelude.Word.{u64_mod, add64}

-- `counter += test`.
abbrev pub add_bool : ℕ → Bool → ℕ
add_bool n b = add64 n (if b then 1 else 0)

-- How many elements pass a test.
abbrev pub count_if : {A : Type 0} → (A → Bool) → List A → ℕ
count_if f [] = 0
count_if f (a ∷ xs) = (if f a then 1 else 0) + count_if f xs

pub count_if-le :
    {A : Type 0} (f g : A → Bool) (xs : List A)
    → ((a : A) → f a ≡ true → g a ≡ true)
    → count_if f xs ≤ count_if g xs
count_if-le f g [] h = omega arith
count_if-le f g (a ∷ xs) h = ground (arith, h a, count_if-le f g xs h)

pub count_if-length : {A : Type 0} (f : A → Bool) (xs : List A) → count_if f xs ≤ length xs
count_if-length f [] = omega arith
count_if-length f (a ∷ xs) = ground (arith, count_if-length f xs)

-- A loop over the elements, with a state.
abbrev pub fold : {A T : Type 0} → (A → T → T) → List A → T → T
fold step [] t = t
fold step (a ∷ xs) t = fold step xs (step a t)

-- A counter that each round raises by a test of its element is, after the loop, the number of elements that
-- pass the test, as long as it does not overflow.
pub fold-count_if :
    {A T : Type 0} (step : A → T → T) (counter : T → ℕ) (test : A → Bool)
    → ((a : A) (t : T)
        → counter t + 1 < u64_mod
        → counter (step a t) ≡ counter t + (if test a then 1 else 0))
    → (xs : List A) (t : T) → counter t + length xs < u64_mod
    → counter (fold step xs t) ≡ counter t + count_if test xs
fold-count_if step counter test one [] t room = omega arith
fold-count_if step counter test one (a ∷ xs) t room =
    let first = one a t (omega (arith, room)) in
    let rest = fold-count_if step counter test one xs (step a t) (ground (arith, first, room)) in
    omega (arith, first, rest)

-- A bound that each round keeps holds after the loop.
pub fold-le :
    {A T : Type 0} (step : A → T → T) (counter : T → ℕ) (bound : ℕ)
    → ((a : A) (t : T) → counter t ≤ bound → counter (step a t) ≤ bound)
    → (xs : List A) (t : T) → counter t ≤ bound
    → counter (fold step xs t) ≤ bound
fold-le step counter bound one [] t h = h
fold-le step counter bound one (a ∷ xs) t h =
    fold-le step counter bound one xs (step a t) (one a t h)
