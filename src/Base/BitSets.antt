-- ===== src/Base/BitSets.antt =====
-- A word as a set of bits: `|` is union, and `x & 1<<i` tests for bit i.
use Prim.Native.Nat.{ℕ, zero, suc, ◌*◌, ◌/◌, ◌%◌, ◌^◌, bit_and, bit_or}
use mathlib.Core.Path.{◌≡◌, refl, ap, ◌∙◌}
use mathlib.Core.Bool.{Bool, true, false, ◌||◌, ◌&&◌}
use native.Mathlib.Nat.{pow-suc}
use native.Mathlib.Omega.{arith}
use eggos.Base.Tests.{◌==◌, if◌then◌else◌}
use eggos.Base.Bits.{bit_or-halves, bit_and-halves, bit_and-zero}

-- Is bit i of x set?
unfoldable pub has_bit : ℕ → ℕ → Bool
has_bit zero x = x % 2 == 1
has_bit (suc i) x = has_bit i (x / 2)

pub has_bit-or : (i x y : ℕ) → has_bit i (bit_or x y) ≡ (has_bit i x || has_bit i y)
unfolding has_bit
has_bit-or zero x y = ground (arith, bit_or-halves x y)
has_bit-or (suc i) x y = ap (has_bit i) half ∙ has_bit-or i (x / 2) (y / 2)
  where
    half : bit_or x y / 2 ≡ bit_or (x / 2) (y / 2)
    half = omega (arith, bit_or-halves x y)

pub has_bit-and : (i x y : ℕ) → has_bit i (bit_and x y) ≡ (has_bit i x && has_bit i y)
unfolding has_bit
has_bit-and zero x y = ground (arith, bit_and-halves x y)
has_bit-and (suc i) x y = ap (has_bit i) half ∙ has_bit-and i (x / 2) (y / 2)
  where
    half : bit_and x y / 2 ≡ bit_and (x / 2) (y / 2)
    half = omega (arith, bit_and-halves x y)

pub has_bit-zero : (i : ℕ) → has_bit i 0 ≡ false
unfolding has_bit
has_bit-zero zero = refl
has_bit-zero (suc i) = has_bit-zero i

half-pow : (j : ℕ) → 2 ^ suc j / 2 ≡ 2 ^ j
half-pow j = omega (arith, pow-suc 2 j)

pub has_bit-pow : (i j : ℕ) → has_bit i (2 ^ j) ≡ (i == j)
unfolding has_bit
has_bit-pow zero zero = refl
has_bit-pow zero (suc j) = ground (arith, pow-suc 2 j)
has_bit-pow (suc i) zero = has_bit-zero i ∙ ground arith
has_bit-pow (suc i) (suc j) = ap (has_bit i) (half-pow j) ∙ has_bit-pow i j ∙ ground arith

-- The test of the source.
pub bit_and-pow : (i x : ℕ) → (bit_and x (2 ^ i) == 0) ≡ (if has_bit i x then false else true)
unfolding has_bit
bit_and-pow zero x = ground (arith, bit_and-halves x 1, bit_and-zero (x / 2))
bit_and-pow (suc i) x = same_test ∙ bit_and-pow i (x / 2)
  where
    doubled : bit_and x (2 ^ suc i) ≡ bit_and (x / 2) (2 ^ i) * 2
    doubled =
        omega (arith, bit_and-halves x (2 ^ suc i), ap (bit_and (x / 2)) (half-pow i), pow-suc 2 i)

    same_test : (bit_and x (2 ^ suc i) == 0) ≡ (bit_and (x / 2) (2 ^ i) == 0)
    same_test = ground (arith, doubled)
