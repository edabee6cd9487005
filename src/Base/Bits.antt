-- ===== src/Base/Bits.antt =====
-- The two masks of the IPv6 guard as division, by comparing both tests on each 16-bit value.
use Prim.Native.Nat.{ℕ, zero, suc, ◌+◌, ◌/◌, ◌<◌, bit_and}
use native.Mathlib.Omega.{arith}
use mathlib.Core.Bool.{Bool, true, false}
use mathlib.Core.Path.{◌≡◌, refl}
use ai_search_api.Base.Tests.{◌==◌}

abbrev differ : Bool → Bool → ℕ
differ true true = 0
differ false false = 0
differ _ _ = 1

differ-eq : (u v : Bool) → differ u v ≡ 0 → u ≡ v
differ-eq u v none = ground arith

module _ (f g : ℕ → Bool) where
  -- On how many of the numbers below a bound the tests differ.
  differences : ℕ → ℕ
  differences zero = 0
  differences (suc bound) = differ (f bound) (g bound) + differences bound

  agree : (bound : ℕ) → differences bound ≡ 0 → (k : ℕ) → k < bound → f k ≡ g k
  unfolding differences
  agree zero none k below = absurd (ground arith)
  agree (suc bound) none k below =
      ground (arith, differ-eq (f bound) (g bound), agree bound (omega (arith, none)) k)

no_difference_fe00 : differences (λ k. bit_and k 0xfe00 == 0xfc00) (λ k. k / 512 == 126) 65536 ≡ 0
unfolding differences
no_difference_fe00 = refl

no_difference_ffc0 : differences (λ k. bit_and k 0xffc0 == 0xfe80) (λ k. k / 64 == 1018) 65536 ≡ 0
unfolding differences
no_difference_ffc0 = refl

pub mask_fe00 : (k : ℕ) → k < 65536 → (bit_and k 0xfe00 == 0xfc00) ≡ (k / 512 == 126)
mask_fe00 = agree _ _ 65536 no_difference_fe00

pub mask_ffc0 : (k : ℕ) → k < 65536 → (bit_and k 0xffc0 == 0xfe80) ≡ (k / 64 == 1018)
mask_ffc0 = agree _ _ 65536 no_difference_ffc0
