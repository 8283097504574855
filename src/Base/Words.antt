-- ===== src/Base/Words.antt =====
-- A Go int or uintptr of the i386 target, as its bit pattern below 2 ^ 32. Where a signed
-- operation differs from the unsigned one it has its own function.
use Prim.Native.Nat.{ℕ, ◌+◌, ◌-◌, ◌/◌, ◌%◌, ◌^◌, ◌<◌}
use mathlib.Core.Path.{◌≡◌}
use mathlib.Core.Bool.{Bool}
use native.Mathlib.Omega.{arith}
use eggos.Base.Tests.{leb, if◌then◌else◌}

abbrev pub word : ℕ
word = 2 ^ 32

abbrev pub add32 : ℕ → ℕ → ℕ
add32 a b = (a + b) % word

abbrev pub sub32 : ℕ → ℕ → ℕ
sub32 a b = (a + word - b) % word

abbrev pub is_negative : ℕ → Bool
is_negative a = leb (2 ^ 31) a

-- Go's `/` and `%` on int round towards zero; the divisor is a positive constant.
abbrev pub int_div : ℕ → ℕ → ℕ
int_div a d = if is_negative a then (word - (word - a) / d) % word else a / d

abbrev pub int_rem : ℕ → ℕ → ℕ
int_rem a d = if is_negative a then (word - (word - a) % d) % word else a % d

pub int_div-eq-div : (a d : ℕ) → a < 2 ^ 31 → int_div a d ≡ a / d
int_div-eq-div a d h = ground arith
