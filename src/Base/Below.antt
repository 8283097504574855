-- ===== src/Base/Below.antt =====
-- Checking a Boolean property of every number of a small range by evaluation.
use Prim.Native.Nat.{ℕ, zero, suc, ◌<◌}
use mathlib.Core.Path.{◌≡◌}
use mathlib.Core.Bool.{Bool, true, ◌&&◌}
use native.Mathlib.Omega.{arith}

-- Does the test hold at 0, …, k - 1?
unfoldable pub all_below : ℕ → (ℕ → Bool) → Bool
all_below zero test = true
all_below (suc k) test = all_below k test && test k

pub of_all_below :
    (k : ℕ) (test : ℕ → Bool) (i : ℕ) → all_below k test ≡ true → i < k → test i ≡ true
unfolding all_below
of_all_below (suc k) test i checked below = ground (arith, of_all_below k test i)
of_all_below zero test i checked below = absurd (omega arith)
