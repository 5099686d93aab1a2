-- ===== src/Base/Bytes.antt =====
-- Little-endian bytes of unsigned integers: Rust's `to_le_bytes` and `from_le_bytes`.
use rebuild_token_vesting.Base.Lists.{length, All}
use Prim.Native.Nat.{ℕ, zero, suc, ◌+◌, ◌*◌, ◌/◌, ◌%◌, ◌^◌, ◌<◌}
use mathlib.Core.Path.{◌≡◌, refl, ap}
use mathlib.Core.List.{List, [], ◌∷◌}
use native.Mathlib.Omega.{arith}
use native.Mathlib.Nat.{pow-suc}

abbrev pub Bytes : Type 0
Bytes = List ℕ

abbrev pub IsByte : ℕ → Type 0
IsByte b = b < 256

-- The `w` low bytes of `n`, lowest first.
unfoldable pub to_le_bytes : ℕ → ℕ → Bytes
to_le_bytes zero n = []
to_le_bytes (suc w) n = (n % 256) ∷ to_le_bytes w (n / 256)

unfoldable pub from_le_bytes : Bytes → ℕ
from_le_bytes [] = 0
from_le_bytes (b ∷ bs) = b + 256 * from_le_bytes bs

pub length-to_le_bytes : (w n : ℕ) → length (to_le_bytes w n) ≡ w
unfolding to_le_bytes
length-to_le_bytes zero n = refl
length-to_le_bytes (suc w) n = ap suc (length-to_le_bytes w (n / 256))

pub to_le_bytes-IsByte : (w n : ℕ) → All IsByte (to_le_bytes w n)
unfolding to_le_bytes
to_le_bytes-IsByte zero n = tt
to_le_bytes-IsByte (suc w) n = (omega arith, to_le_bytes-IsByte w (n / 256))

-- Reading back what was written.
pub from_le_bytes-to_le_bytes : (w n : ℕ) → n < 256 ^ w → from_le_bytes (to_le_bytes w n) ≡ n
unfolding to_le_bytes from_le_bytes
from_le_bytes-to_le_bytes zero n h = omega arith
from_le_bytes-to_le_bytes (suc w) n h =
    omega
      (arith, pow-suc 256 w, from_le_bytes-to_le_bytes w (n / 256) (omega (arith, pow-suc 256 w)))

-- Bytes are what their number is written as.
pub to_le_bytes-from_le_bytes :
    (w : ℕ) (bs : Bytes) → length bs ≡ w → All IsByte bs → to_le_bytes w (from_le_bytes bs) ≡ bs
unfolding to_le_bytes from_le_bytes
to_le_bytes-from_le_bytes zero [] h a = refl
to_le_bytes-from_le_bytes zero (b ∷ bs) h a = absurd (omega arith)
to_le_bytes-from_le_bytes (suc w) [] h a = absurd (omega arith)
to_le_bytes-from_le_bytes (suc w) (b ∷ bs) h a =
    rw (low, high, to_le_bytes-from_le_bytes w bs (omega arith) a.1)
  where
    low : (b + 256 * from_le_bytes bs) % 256 ≡ b
    low = omega (arith, a.0)

    high : (b + 256 * from_le_bytes bs) / 256 ≡ from_le_bytes bs
    high = omega (arith, a.0)

pub from_le_bytes_bound : (bs : Bytes) → All IsByte bs → from_le_bytes bs < 256 ^ length bs
unfolding from_le_bytes
from_le_bytes_bound [] a = omega arith
from_le_bytes_bound (b ∷ bs) a =
    omega (arith, pow-suc 256 (length bs), a.0, from_le_bytes_bound bs a.1)
