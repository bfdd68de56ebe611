-- ===== src/Prelude/Int.antt =====
-- Signed integers, and `std::int64_t` as the two's complement reading of a 64-bit word.
use Prim.Native.Nat.{ℕ, suc, ◌+◌, ◌-◌, ◌%◌, ◌^◌, ◌<◌}
use mathlib.Core.Path.{◌≡◌}
use native.Mathlib.Omega.{arith}
use nyse_pillar_market_data.Prelude.Tests.{ltb, leb, if◌then◌else◌}
use nyse_pillar_market_data.Prelude.Word.{u64_mod}

-- `negsuc n` is -(n + 1).
pub data ℤ : Type 0 where
  pos : ℕ → ℤ
  negsuc : ℕ → ℤ

abbrev pos_part : ℤ → ℕ
pos_part (pos n) = n
pos_part (negsuc n) = 0

abbrev neg_part : ℤ → ℕ
neg_part (pos n) = 0
neg_part (negsuc n) = suc n

-- a - b, as an integer.
abbrev sub_ℕ : ℕ → ℕ → ℤ
sub_ℕ a b = if leb b a then pos (a - b) else negsuc (b - a - 1)

infixl 65 ◌+ℤ◌ ◌-ℤ◌
unfoldable pub ◌+ℤ◌ : ℤ → ℤ → ℤ
a +ℤ b = sub_ℕ (pos_part a + pos_part b) (neg_part a + neg_part b)

unfoldable pub ◌-ℤ◌ : ℤ → ℤ → ℤ
a -ℤ b = sub_ℕ (pos_part a + neg_part b) (neg_part a + pos_part b)

-- `static_cast<std::int64_t>`.
unfoldable pub as_i64 : ℕ → ℤ
as_i64 n = if ltb n (2 ^ 63) then pos n else negsuc (u64_mod - n - 1)

-- `static_cast<std::uint64_t>`.
unfoldable pub as_u64 : ℤ → ℕ
as_u64 (pos n) = n % u64_mod
as_u64 (negsuc n) = u64_mod - 1 - n % u64_mod

-- Adding the signed difference of two words to a third comes to modular arithmetic on words.
pub as_u64-add-sub :
    (t n o : ℕ)
    → t < u64_mod
    → n < u64_mod
    → o < u64_mod
    → as_u64 (as_i64 t +ℤ (as_i64 n -ℤ as_i64 o)) ≡ (t + (n + u64_mod - o)) % u64_mod
unfolding as_u64 as_i64 ◌+ℤ◌ ◌-ℤ◌
as_u64-add-sub t n o ht hn ho = ground arith
