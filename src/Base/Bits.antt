-- ===== src/Base/Bits.antt =====
-- Laws of the native bit operations at variables, from the recursion on binary digits that they
-- stand for: `|` of disjoint fields is a sum, and `&` with a low mask is a remainder.
use Prim.Native.Nat.{
  ℕ, zero, suc, ◌+◌, ◌*◌, ◌/◌, ◌%◌, ◌^◌, ◌≤◌, ◌<◌, min, max, bit_and, bit_or, digits, bitwise,
  bit_and-bitwise, bit_or-bitwise,
}
use mathlib.Core.Path.{◌≡◌, refl, ap}
use native.Mathlib.Nat.{pow-suc}
use native.Mathlib.Omega.{arith}

-- The digits do not depend on the fuel, once it covers the first operand.
same_digits :
    (low : ℕ → ℕ) (pair : ℕ → ℕ → ℕ) (n m a b : ℕ)
    → a ≤ n
    → a ≤ m
    → digits low pair n a b ≡ digits low pair m a b
same_digits low pair zero zero a b p q = refl
same_digits low pair zero (suc m) zero b p q = refl
same_digits low pair (suc n) zero zero b p q = refl
same_digits low pair (suc n) (suc m) zero b p q = refl
same_digits low pair zero (suc m) (suc a) b p q = absurd (omega arith)
same_digits low pair (suc n) zero (suc a) b p q = absurd (omega arith)
same_digits low pair (suc n) (suc m) (suc a) b p q =
    omega (arith, same_digits low pair n m (suc a / 2) (b / 2) (omega arith) (omega arith))

lowest_digit :
    (low : ℕ → ℕ) (pair : ℕ → ℕ → ℕ) (a b : ℕ)
    → bitwise low pair (suc a) b
      ≡ bitwise low pair (suc a / 2) (b / 2) * 2 + pair (suc a % 2) (b % 2)
lowest_digit low pair a b =
    omega
      (arith, same_digits low pair a (suc a / 2) (suc a / 2) (b / 2) (omega arith) (omega arith))

pub bit_or-halves : (a b : ℕ) → bit_or a b ≡ bit_or (a / 2) (b / 2) * 2 + max (a % 2) (b % 2)
bit_or-halves zero b = simp bit_or-bitwise (omega arith)
bit_or-halves (suc a) b = simp bit_or-bitwise (lowest_digit (λ y. y) max a b)

pub bit_and-halves : (a b : ℕ) → bit_and a b ≡ bit_and (a / 2) (b / 2) * 2 + min (a % 2) (b % 2)
bit_and-halves zero b = simp bit_and-bitwise (omega arith)
bit_and-halves (suc a) b = simp bit_and-bitwise (lowest_digit (λ y. 0) min a b)

-- Both facts at once, for every number below a bound.
zero_laws : (bound x : ℕ) → x < bound → (bit_or x 0 ≡ x) × (bit_and x 0 ≡ 0)
zero_laws zero x below = absurd (omega arith)
zero_laws (suc bound) zero below = (refl, refl)
zero_laws (suc bound) (suc x) below =
    let (ors, ands) = zero_laws bound (suc x / 2) (omega arith) in
    (omega (arith, bit_or-halves (suc x) 0, ors), omega (arith, bit_and-halves (suc x) 0, ands))

pub bit_or-zero : (a : ℕ) → bit_or a 0 ≡ a
bit_or-zero a = (zero_laws (suc a) a (omega arith)).0

pub bit_and-zero : (a : ℕ) → bit_and a 0 ≡ 0
bit_and-zero a = (zero_laws (suc a) a (omega arith)).1

twice-pow : (q k : ℕ) → q * 2 ^ suc k ≡ 2 * (q * 2 ^ k)
twice-pow q k = omega (arith, ap (λ (t : ℕ). q * t) (pow-suc 2 k))

-- `(q << k) | r` is a sum where `r` has at most `k` bits.
pub bit_or-add : (k q r : ℕ) → r < 2 ^ k → bit_or (q * 2 ^ k) r ≡ q * 2 ^ k + r
bit_or-add zero q r h = ground (arith, bit_or-zero q)
bit_or-add (suc k) q r h =
    ground
      (arith, bit_or-halves (q * 2 ^ suc k) r, twice-pow q k, bit_or-add k q (r / 2) (omega arith))

-- The lowest bit, as `x & 1` reads it.
pub bit_and-one : (a : ℕ) → bit_and a 1 ≡ a % 2
bit_and-one a = omega (arith, bit_and-halves a 1, bit_and-zero (a / 2))
