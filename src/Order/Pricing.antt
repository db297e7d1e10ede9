-- ===== src/Order/Pricing.antt =====
-- `compute_order_totals` of app/order/service.py on prices of whole cents.
use vyapar_ai.Prelude.{false, leb, ◌-◌, arith, suc, ◌^◌, ◌+◌, ℕ, ◌≡◌, refl, ap, ◌∙◌, List, [], ◌∷◌}
use vyapar_ai.Prelude.Int.{ℤ, pos, ◌+ℤ◌, ◌*ℤ◌, +ℤ_assoc, int_laws}
use vyapar_ai.Common.Result.{Result, ok, ◌>>=◌}
use vyapar_ai.Common.Decimal
use vyapar_ai.Common.Decimal.{Decimal, cents, from_int, half_up_ℤ, quantize_cents}
use vyapar_ai.Common.Money
use vyapar_ai.Common.Money.{Money, default_currency}
use vyapar_ai.Common.Money.Cents.{rupees, money-cents, mul-cents, add-cents}
use vyapar_ai.Order.Totals.{add_lines, compute_order_totals}

-- Lines of a price in cents and a quantity, and what they come to.
abbrev pub priced : List (ℤ × ℤ) → List (Decimal × ℤ)
priced [] = []
priced ((price, quantity) ∷ lines) = (cents price, quantity) ∷ priced lines

abbrev pub subtotal_of : List (ℤ × ℤ) → ℤ
subtotal_of [] = pos 0
subtotal_of ((price, quantity) ∷ lines) = price *ℤ quantity +ℤ subtotal_of lines

add_lines_lem :
    (s : ℤ) (lines : List (ℤ × ℤ))
    → add_lines (rupees s) (priced lines) ≡ ok (rupees (s +ℤ subtotal_of lines))
unfolding add_lines
add_lines_lem s [] = ap (λ x. ok (rupees x)) (omega int_laws)
add_lines_lem s ((price, quantity) ∷ lines) =
    ap
      (λ (r : Result Money). r >>= λ x. Money.mul x (from_int quantity) >>= λ y.
        Money.add (rupees s) y >>= λ z. add_lines z (priced lines))
      (money-cents price)
    ∙ ap
        (λ (r : Result Money).
          r >>= λ y. Money.add (rupees s) y >>= λ z. add_lines z (priced lines))
        (mul-cents price quantity)
    ∙ ap (λ (r : Result Money). r >>= λ z. add_lines z (priced lines))
        (add-cents s (price *ℤ quantity))
    ∙ add_lines_lem (s +ℤ price *ℤ quantity) lines
    ∙ ap (λ x. ok (rupees x)) (+ℤ_assoc s (price *ℤ quantity) (subtotal_of lines))

-- The tax in cents: the subtotal times the rate, rounded half up.
abbrev pub tax_of : ℤ → ℤ → ℕ → ℤ
tax_of subtotal rate places = half_up_ℤ (subtotal *ℤ rate) (10 ^ places)

zero_left : (x : ℤ) → pos 0 +ℤ x ≡ x
zero_left x = omega int_laws

-- The rate of tax has one place or more: 0.18 has two.
tax-cents :
    (s rate : ℤ) (places : ℕ)
    → Money.mul (rupees s) (record { coefficient = rate; places = suc places })
      ≡ ok (rupees (tax_of s rate (suc places)))
unfolding Money.mul Decimal.mul Money.money quantize_cents
tax-cents s rate places =
    let small : leb (2 + suc places) 2 ≡ false = ground arith in
    let left : 2 + suc places - 2 ≡ suc places = omega arith in rw (small, left) refl

zero-cents : Money.zero default_currency ≡ ok (rupees (pos 0))
unfolding Money.zero Money.money quantize_cents Decimal.scaled ◌*ℤ◌
zero-cents = refl

-- For prices of whole cents and a rate with decimal places, the totals are computed without an
-- error: the subtotal is the exact sum, the tax is the subtotal times the rate rounded half up to a
-- cent, and the total is the sum of the two.
pub compute_order_totals-priced :
    (lines : List (ℤ × ℤ)) (rate : ℤ) (places : ℕ)
    → let subtotal = subtotal_of lines in
      let tax = tax_of subtotal rate (suc places) in
      compute_order_totals (priced lines) (record { coefficient = rate; places = suc places })
      ≡ ok (cents subtotal, cents tax, cents (subtotal +ℤ tax))
unfolding compute_order_totals
compute_order_totals-priced lines rate places =
    let rate_amt : Decimal = record { coefficient = rate; places = suc places } in
    let subtotal = subtotal_of lines in
    ap
      (λ (r : Result Money). r >>= λ start. add_lines start (priced lines) >>= λ subtotal.
        Money.mul subtotal rate_amt >>= λ tax.
        Money.add subtotal tax >>= λ total. ok (subtotal.amount, tax.amount, total.amount))
      zero-cents
    ∙ ap
        (λ (r : Result Money). r >>= λ subtotal. Money.mul subtotal rate_amt >>= λ tax.
          Money.add subtotal tax >>= λ total. ok (subtotal.amount, tax.amount, total.amount))
        (add_lines_lem (pos 0) lines ∙ ap (λ x. ok (rupees x)) (zero_left subtotal))
    ∙ ap
        (λ (r : Result Money). r >>= λ tax. Money.add (rupees subtotal) tax >>= λ total.
          ok ((rupees subtotal).amount, tax.amount, total.amount))
        (tax-cents subtotal rate places)
    ∙ ap
        (λ (r : Result Money). r >>= λ total.
          ok (cents subtotal, cents (tax_of subtotal rate (suc places)), total.amount))
        (add-cents subtotal (tax_of subtotal rate (suc places)))
