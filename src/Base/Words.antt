-- ===== src/Base/Words.antt =====
-- `to_le_bytes` and `from_le_bytes` of the unsigned integers, at any number of bytes.
use native.Mathlib.Nat.{pow-suc}
use Prim.Native.Nat.{ℕ, zero, suc, ◌+◌, ◌*◌, ◌/◌, ◌%◌, ◌^◌, ◌<◌}
use mathlib.Core.Path.{◌≡◌, refl, ap}
use mathlib.Core.List.{List, [], ◌∷◌, ◌++◌}
use native.Mathlib.Omega.{arith}
use mathlib.Core.Option.{Option, none, some}
use spikeling_os.Base.Tests.{ltb, if◌then◌else◌}
use spikeling_os.Base.Lists.{length, get_or, drop}

-- One more than the largest u64, which is also the largest usize here.
abbrev pub u64_limit : ℕ
u64_limit = 2 ^ 64

abbrev pub checked_add : ℕ → ℕ → Option ℕ
checked_add a b = if ltb (a + b) u64_limit then some (a + b) else none

abbrev pub checked_mul : ℕ → ℕ → Option ℕ
checked_mul a b = if ltb (a * b) u64_limit then some (a * b) else none

unfoldable pub to_le_bytes : ℕ → ℕ → List ℕ
to_le_bytes zero n = []
to_le_bytes (suc k) n = n % 256 ∷ to_le_bytes k (n / 256)

-- The first `k` bytes of the list; one that is missing counts as 0.
unfoldable pub from_le_bytes : ℕ → List ℕ → ℕ
from_le_bytes zero xs = 0
from_le_bytes (suc k) xs = get_or xs 0 0 + 256 * from_le_bytes k (drop 1 xs)

pub length-to_le_bytes : (k n : ℕ) → length (to_le_bytes k n) ≡ k
unfolding to_le_bytes
length-to_le_bytes zero n = refl
length-to_le_bytes (suc k) n = ap suc (length-to_le_bytes k (n / 256))

pub from_le_bytes-to_le_bytes :
    (k n : ℕ) (rest : List ℕ) → n < 256 ^ k → from_le_bytes k (to_le_bytes k n ++ rest) ≡ n
unfolding to_le_bytes from_le_bytes
from_le_bytes-to_le_bytes zero n rest h = omega arith
from_le_bytes-to_le_bytes (suc k) n rest h =
    omega (arith, from_le_bytes-to_le_bytes k (n / 256) rest below)
  where
    below : n / 256 < 256 ^ k
    below = omega (arith, pow-suc 256 k)
