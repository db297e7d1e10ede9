-- ===== src/Common/Money.antt =====
-- app/common/money.py: the value object `Money`.
pub mod Cents
use Prim.Native.String.{count}
use vyapar_ai.Prelude.{String, Bool, str_eq, ◌==◌, if◌then◌else◌}
use vyapar_ai.Prelude.Int.{pos}
use vyapar_ai.Common.Error.{value_error}
use vyapar_ai.Common.Result.{Result, ok, err, ◌>>=◌, ◌>>◌}
use vyapar_ai.Common.Decimal
use vyapar_ai.Common.Decimal.{Decimal, from_int, quantize_cents}

pub record Money : Type 0 where
  pub amount : Decimal
  pub currency : String

-- `Money(amount, currency)` with its `__post_init__`
unfoldable pub money : Decimal → String → Result Money
unfolding quantize_cents
money amount currency =
    if count currency == 3
    then ok (record { amount = quantize_cents amount; currency = currency })
    else err (value_error "currency must be a 3-letter ISO code")

-- `_check`
unfoldable pub check : Money → Money → Result (Unit {0})
check a b = if str_eq a.currency b.currency then ok tt else err (value_error "currency mismatch")

-- `__add__`
unfoldable pub add : Money → Money → Result Money
unfolding check money Decimal.add
add a b = do check a b; money (Decimal.add a.amount b.amount) a.currency

-- `__sub__`
unfoldable pub sub : Money → Money → Result Money
unfolding check money Decimal.sub
sub a b = do check a b; money (Decimal.sub a.amount b.amount) a.currency

-- `__mul__`
unfoldable pub mul : Money → Decimal → Result Money
unfolding money Decimal.mul
mul a factor = money (Decimal.mul a.amount factor) a.currency

unfoldable pub is_negative : Money → Bool
unfolding Decimal.lt
is_negative a = Decimal.lt a.amount (from_int (pos 0))

-- The default of the field `currency`.
abbrev pub default_currency : String
default_currency = "INR"

-- `Money.zero(currency)`
unfoldable pub zero : String → Result Money
unfolding money
zero currency = money (from_int (pos 0)) currency
