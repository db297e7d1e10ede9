-- ===== src/Order/Totals.antt =====
-- `compute_order_totals` of app/order/service.py.
use vyapar_ai.Prelude.{List, [], ◌∷◌}
use vyapar_ai.Prelude.Int.{ℤ}
use vyapar_ai.Common.Result.{Result, ok, ◌>>=◌}
use vyapar_ai.Common.Decimal.{Decimal, from_int}
use vyapar_ai.Common.Money
use vyapar_ai.Common.Money.{Money, default_currency}

-- `for unit_price, quantity in lines: subtotal = subtotal + Money(unit_price) * quantity`
unfoldable pub add_lines : Money → List (Decimal × ℤ) → Result Money
unfolding Money.money Money.mul Money.add
add_lines subtotal [] = ok subtotal
add_lines subtotal ((unit_price, quantity) ∷ lines) = do
  price ← Money.money unit_price default_currency
  line ← Money.mul price (from_int quantity)
  sum ← Money.add subtotal line
  add_lines sum lines

-- The subtotal, the tax and the total.
unfoldable pub compute_order_totals :
    List (Decimal × ℤ) → Decimal → Result (Decimal × Decimal × Decimal)
unfolding add_lines Money.zero
compute_order_totals lines tax_rate = do
  start ← Money.zero default_currency
  subtotal ← add_lines start lines
  tax ← Money.mul subtotal tax_rate
  total ← Money.add subtotal tax
  ok (subtotal.amount, tax.amount, total.amount)
