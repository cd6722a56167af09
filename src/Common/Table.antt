-- ===== src/Common/Table.antt =====
-- A property of every byte, by evaluation.
use Prim.Native.Nat.{ℕ, zero, suc, ◌<◌}
use mathlib.Core.Path.{◌≡◌}
use mathlib.Core.Bool.{Bool, true, ◌&&◌}
use native.Mathlib.Omega.{arith}

-- The test holds of each number below the bound.
unfoldable pub holds_up_to : ℕ → (ℕ → Bool) → Bool
holds_up_to zero test = true
holds_up_to (suc bound) test = holds_up_to bound test && test bound

pub holds_up_to-test :
    (bound : ℕ) (test : ℕ → Bool) (b : ℕ)
    → holds_up_to bound test ≡ true
    → b < bound
    → test b ≡ true
unfolding holds_up_to
holds_up_to-test zero test b every below = absurd (omega arith)
holds_up_to-test (suc bound) test b every below = ground (arith, holds_up_to-test bound test b)
