-- ===== src/Base/Tables.antt =====
-- Facts about all numbers below a bound, checked by evaluation; masks and shifts on small words.
use Prim.Native.Nat.{ℕ, zero, suc, ◌*◌, ◌/◌, ◌%◌, ◌<◌, bit_and, bit_or}
use mathlib.Core.Bool.{Bool, true, ◌&&◌}
use mathlib.Core.Path.{◌≡◌, refl}
use native.Mathlib.Omega.{arith}
use sdb.Base.Tests.{◌==◌}

module _ (f g : ℕ → ℕ) where
  unfoldable pub same_below : ℕ → Bool
  same_below zero = true
  same_below (suc n) = f n == g n && same_below n

  pub same_below→eq : (n : ℕ) → same_below n ≡ true → (i : ℕ) → i < n → f i ≡ g i
  unfolding same_below
  same_below→eq zero e i h = absurd (omega arith)
  same_below→eq (suc n) e i h = ground (arith, same_below→eq n (ground arith) i)

pub and_three : (x : ℕ) → x < 256 → bit_and x 3 ≡ x % 4
unfolding same_below
and_three = same_below→eq _ _ 256 refl

pub and_fifteen : (x : ℕ) → x < 256 → bit_and x 15 ≡ x % 16
unfolding same_below
and_fifteen = same_below→eq _ _ 256 refl

pub and_high_nibble : (x : ℕ) → x < 256 → bit_and x 0xf0 / 16 ≡ x / 16
unfolding same_below
and_high_nibble = same_below→eq _ _ 256 refl

pub and_top_two : (x : ℕ) → x < 256 → bit_and x 0xc0 / 64 ≡ x / 64
unfolding same_below
and_top_two = same_below→eq _ _ 256 refl

pub and_low_six : (x : ℕ) → x < 256 → bit_and x 0x3f ≡ x % 64
unfolding same_below
and_low_six = same_below→eq _ _ 256 refl

-- An `or` of a shifted part and a part below it is their sum.
pub or_four : (n : ℕ) → n < 256 → bit_or (n / 4 * 4) (n % 4) ≡ n
unfolding same_below
or_four = same_below→eq _ _ 256 refl

pub or_sixteen : (n : ℕ) → n < 1024 → bit_or (n / 16 * 16) (n % 16) ≡ n
unfolding same_below
or_sixteen = same_below→eq _ _ 1024 refl

pub or_sixty_four : (n : ℕ) → n < 256 → bit_or (n / 64 * 64) (n % 64) ≡ n
unfolding same_below
or_sixty_four = same_below→eq _ _ 256 refl

pub shifted_top_two : (x : ℕ) → x < 64 → bit_and (x * 64) 0xc0 ≡ x % 4 * 64
unfolding same_below
shifted_top_two = same_below→eq _ _ 64 refl
