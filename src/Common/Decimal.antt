-- ===== src/Common/Decimal.antt =====
-- Python's `decimal.Decimal`, as far as app/common/money.py uses it: finite numbers, a signed
-- coefficient over a power of ten. The arithmetic is exact, where the default context rounds at
-- 28 digits: the columns are NUMERIC(12, 2) and quantities are at most 1,000,000, and the tax rate is
-- taken to have few enough places.
use Prim.Native.Nat.{max}
use vyapar_ai.Prelude.{ℕ, suc, zero, ◌+◌, ◌-◌, ◌*◌, ◌/◌, ◌^◌, Bool, leb, if◌then◌else◌}
use vyapar_ai.Prelude.Int.{ℤ, pos, negsuc, ◌+ℤ◌, ◌-ℤ◌, ◌*ℤ◌, ltb_ℤ, eqb_ℤ}

-- coefficient / 10 ^ places
pub record Decimal : Type 0 where
  pub coefficient : ℤ
  pub places : ℕ

-- `Decimal(n)` of an `int`
abbrev pub from_int : ℤ → Decimal
from_int n = record { coefficient = n; places = 0 }

-- An amount of whole cents.
abbrev pub cents : ℤ → Decimal
cents n = record { coefficient = n; places = 2 }

-- The coefficient of the same number at `p` places, for `p` no less than its own.
unfoldable pub scaled : Decimal → ℕ → ℤ
scaled d p = d.coefficient *ℤ pos (10 ^ (p - d.places))

unfoldable pub add : Decimal → Decimal → Decimal
unfolding scaled
add a b =
    let p = max a.places b.places in record { coefficient = scaled a p +ℤ scaled b p; places = p }

unfoldable pub sub : Decimal → Decimal → Decimal
unfolding scaled
sub a b =
    let p = max a.places b.places in record { coefficient = scaled a p -ℤ scaled b p; places = p }

unfoldable pub mul : Decimal → Decimal → Decimal
mul a b = record { coefficient = a.coefficient *ℤ b.coefficient; places = a.places + b.places }

-- `a < b`, `a == b`
unfoldable pub lt : Decimal → Decimal → Bool
unfolding scaled
lt a b = let p = max a.places b.places in ltb_ℤ (scaled a p) (scaled b p)

unfoldable pub eq : Decimal → Decimal → Bool
unfolding scaled
eq a b = let p = max a.places b.places in eqb_ℤ (scaled a p) (scaled b p)

-- m / d to the nearest whole number, a half upwards
unfoldable pub half_up : ℕ → ℕ → ℕ
half_up m d = (2 * m + d) / (2 * d)

abbrev pub negate_ℕ : ℕ → ℤ
negate_ℕ zero = pos 0
negate_ℕ (suc n) = negsuc n

-- ROUND_HALF_UP rounds the magnitude and keeps the sign.
unfoldable pub half_up_ℤ : ℤ → ℕ → ℤ
unfolding half_up
half_up_ℤ (pos n) d = pos (half_up n d)
half_up_ℤ (negsuc n) d = negate_ℕ (half_up (suc n) d)

-- `d.quantize(Decimal("0.01"), ROUND_HALF_UP)`
unfoldable pub quantize_cents : Decimal → Decimal
unfolding scaled half_up_ℤ
quantize_cents d =
    if leb d.places 2
    then cents (scaled d 2)
    else cents (half_up_ℤ d.coefficient (10 ^ (d.places - 2)))
