-- ===== src/Base/Bits.antt =====
-- Masks on one byte as arithmetic; each is a table of 256 entries, checked by evaluation.
use Prim.Native.Nat.{ℕ, zero, suc, ◌+◌, ◌*◌, ◌/◌, ◌%◌, ◌<◌, bit_and, bit_or}
use mathlib.Core.Path.{◌≡◌, refl}
use mathlib.Core.Bool.{Bool, true, false}
use mathlib.Core.Logic.{ite}
use native.Mathlib.Decide.{ℕ_discrete}
use native.Mathlib.Omega.{arith}

-- Two functions on numbers that agree at every value below a bound.
module _ (f g : ℕ → ℕ) where
  unfoldable pub agree_below : ℕ → Bool
  unfolding ℕ_discrete
  agree_below zero = true
  agree_below (suc n) = ite (ℕ_discrete (f n) (g n)) (agree_below n) false

  pub agree_below→eq : (n : ℕ) → agree_below n ≡ true → (i : ℕ) → i < n → f i ≡ g i
  unfolding agree_below
  agree_below→eq zero e i h = absurd (omega arith)
  agree_below→eq (suc n) e i h = ground (arith, agree_below→eq n (ground arith) i)

pub and_bit_zero : (b : ℕ) → b < 256 → bit_and b 1 ≡ b % 2
unfolding agree_below
and_bit_zero = agree_below→eq _ _ 256 refl

pub and_low_three : (b : ℕ) → b < 256 → bit_and b 7 ≡ b % 8
unfolding agree_below
and_low_three = agree_below→eq _ _ 256 refl

pub and_low_four : (b : ℕ) → b < 256 → bit_and b 15 ≡ b % 16
unfolding agree_below
and_low_four = agree_below→eq _ _ 256 refl

pub and_high_four : (b : ℕ) → b < 256 → bit_and b 0xf0 ≡ b / 16 * 16
unfolding agree_below
and_high_four = agree_below→eq _ _ 256 refl

pub and_top : (b : ℕ) → b < 256 → bit_and b 0x80 ≡ b / 128 * 128
unfolding agree_below
and_top = agree_below→eq _ _ 256 refl

-- `(info & 0xf0) | 14`
pub demoted_info : (b : ℕ) → b < 256 → bit_or (bit_and b 0xf0) 14 ≡ b / 16 * 16 + 14
unfolding agree_below
demoted_info = agree_below→eq _ _ 256 refl
