-- ===== src/Common/Money/Cents.antt =====
-- Money on amounts of whole cents: sums and products by integers are exact.
use vyapar_ai.Prelude.{
  ℕ, ◌≡◌, ap, ◌∙◌, arith, ◌*◌, ◌+◌, ◌≤◌, ◌<◌, ◌^◌, zero, suc, refl, leb, false, ◌-◌,
}
use vyapar_ai.Prelude.Int.{ℤ, pos, negsuc, ◌+ℤ◌, ◌*ℤ◌}
use Prim.Native.Nat.pow
use native.Mathlib.Omega.{div_any}
use native.Mathlib.Nat.{lt-mul-div-succ}
use vyapar_ai.Common.Result.{ok}
use vyapar_ai.Common.Decimal
use vyapar_ai.Common.Decimal.{
  Decimal, cents, from_int, quantize_cents, half_up, half_up_ℤ, negate_ℕ,
}
use vyapar_ai.Common.Money
use vyapar_ai.Common.Money.{Money, default_currency}

-- An amount in rupees.
abbrev pub rupees : ℤ → Money
rupees n = record { amount = cents n; currency = default_currency }

times_one : (x : ℤ) → x *ℤ pos 1 ≡ x
unfolding ◌*ℤ◌
times_one (pos n) = ground arith
times_one (negsuc n) = ground arith

pub quantize_cents-cents : (x : ℤ) → quantize_cents (cents x) ≡ cents x
unfolding quantize_cents Decimal.scaled
quantize_cents-cents x = ap cents (times_one x)

pub money-cents : (x : ℤ) → Money.money (cents x) default_currency ≡ ok (rupees x)
unfolding Money.money
money-cents x =
    ap (λ a. ok (record { amount = a; currency = default_currency })) (quantize_cents-cents x)

pub mul-cents : (x q : ℤ) → Money.mul (rupees x) (from_int q) ≡ ok (rupees (x *ℤ q))
unfolding Money.mul Decimal.mul
mul-cents x q = money-cents (x *ℤ q)

pub add-cents : (x y : ℤ) → Money.add (rupees x) (rupees y) ≡ ok (rupees (x +ℤ y))
unfolding Money.add Money.check Decimal.add Decimal.scaled
add-cents x y =
    ap (λ a. Money.money (cents a) default_currency)
      (ap (λ a. a +ℤ y *ℤ pos 1) (times_one x) ∙ ap (λ b. x +ℤ b) (times_one y))
    ∙ money-cents (x +ℤ y)

-- The rounded quotient is nearest: it is off by at most a half, and a half goes up.
half_up-nearest :
    (m d : ℕ)
    → 0 < d
    → (2 * d * half_up m d ≤ 2 * m + d) × (2 * m + d < 2 * d * half_up m d + 2 * d)
unfolding half_up
half_up-nearest m d h = (
  grind (arith, div_any (2 * m + d) (2 * d)),
  grind (arith, lt-mul-div-succ (2 * m + d) {b = 2 * d} (omega arith)),
)

-- q / 100 is the amount nearest to m / d of whole cents, and the larger one of two.
abbrev pub IsNearest : ℕ → ℕ → ℕ → Type 0
IsNearest m d q = (2 * (q * d) ≤ 200 * m + d) × (200 * m + d < 2 * (q * d) + 2 * d)

pow_pos : (k : ℕ) → 0 < 10 ^ k
pow_pos zero = rw (pow.zero 10) (ground arith)
pow_pos (suc k) = rw (pow.suc 10 k) (omega (arith, pow_pos k))

pow_hundred : (k : ℕ) → 10 ^ suc (suc k) ≡ 100 * 10 ^ k
pow_hundred k = pow.suc 10 (suc k) ∙ ap (λ x. x * 10) (pow.suc 10 k) ∙ omega arith

half_up-IsNearest : (m d : ℕ) → 0 < d → IsNearest m (100 * d) (half_up m d)
half_up-IsNearest m d h = let n = half_up-nearest m d h in (grind (arith, n.0), grind (arith, n.1))

abbrev pub magnitude : ℤ → ℕ
magnitude (pos n) = n
magnitude (negsuc n) = suc n

-- The number of size q on the side of zero of the first number.
abbrev pub signed : ℤ → ℕ → ℤ
signed (pos n) q = pos q
signed (negsuc n) q = negate_ℕ q

grown : (n c : ℕ) → suc n * suc c ≡ suc (n * suc c + c)
grown n c = grind arith

times_factor : (x : ℤ) (c : ℕ) → x *ℤ pos (suc c) ≡ signed x (magnitude x * suc c)
unfolding ◌*ℤ◌
times_factor (pos n) c = ground arith
times_factor (negsuc n) c = rw (grown n c) (ground (arith, grown n c))

half_up-signed : (x : ℤ) (d : ℕ) → half_up_ℤ x d ≡ signed x (half_up (magnitude x) d)
unfolding half_up_ℤ
half_up-signed (pos n) d = refl
half_up-signed (negsuc n) d = refl

above_two : (k : ℕ) → leb (suc (suc (suc k))) 2 ≡ false
above_two k = ground arith

less_two : (k : ℕ) → suc (suc (suc k)) - 2 ≡ suc k
less_two k = omega arith

-- `Decimal.quantize` as Money uses it gives the nearest whole cent, on the same side of zero, for any
-- coefficient and any number of places; of two that are as near, the one farther from zero.
pub quantize_cents-IsNearest :
    (x : ℤ) (places : ℕ)
    → (q : ℕ) × IsNearest (magnitude x) (10 ^ places) q
      × (quantize_cents (record { coefficient = x; places = places }) ≡ cents (signed x q))
unfolding quantize_cents Decimal.scaled
quantize_cents-IsNearest x zero =
    (magnitude x * 100, (ground arith, ground arith), ap cents (times_factor x 99))
quantize_cents-IsNearest x (suc zero) =
    (magnitude x * 10, (ground arith, ground arith), ap cents (times_factor x 9))
quantize_cents-IsNearest x (suc (suc zero)) =
    (magnitude x * 1, (ground arith, ground arith), ap cents (times_factor x 0))
quantize_cents-IsNearest x (suc (suc (suc k))) = (
  half_up (magnitude x) (10 ^ suc k),
  rw (pow_hundred (suc k)) (half_up-IsNearest (magnitude x) (10 ^ suc k) (pow_pos (suc k))),
  rw (above_two k) (
      ap (λ n. cents (half_up_ℤ x (10 ^ n))) (less_two k)
      ∙ ap cents (half_up-signed x (10 ^ suc k))),
)
