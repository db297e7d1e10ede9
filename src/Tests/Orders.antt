-- ===== src/Tests/Orders.antt =====
-- The theorems on orders and stock, at the sample shop.
use vyapar_ai.Prelude.{all, ◌^◌, true, List, ℕ, ◌+◌, ◌≤◌, ◌≡◌, refl, none, some, [], ◌∷◌, length}
use vyapar_ai.Prelude.Int.{ℤ, pos, negsuc, ◌+ℤ◌}
use vyapar_ai.Common.Decimal.{cents, quantize_cents, negate_ℕ}
use vyapar_ai.Common.Money.Cents.{IsNearest, quantize_cents-IsNearest}
use vyapar_ai.Models.Rows.{select, assign}
use vyapar_ai.Models.Inventory.{sale}
use vyapar_ai.Models.Order.{
  InventoryEffect, Order, OrderEvent, Transition, transitions, confirm, cancel, pay, pack, created,
  confirmed, cancelled, packed, shipped, ship,
}
use vyapar_ai.Database.Session.{session_on}
use vyapar_ai.Database.Ends.{Unchanged}
use vyapar_ai.Inventory.{stage_adjustment, insufficient, adjust_stock}
use vyapar_ai.Inventory.Balance.{stock_of, at_same}
use vyapar_ai.Inventory.Stock.{adjust_stock-err}
use vyapar_ai.Inventory.Ledger.{InStep, adjust_stock-stock_of, adjust_stock-InStep}
use vyapar_ai.Inventory.Supply.{IsSupplied, oversold-insufficient}
use vyapar_ai.Order.{apply_effect, transition}
use vyapar_ai.Order.Repository.{at_id, items_of}
use vyapar_ai.Order.Effects.{demand}
use vyapar_ai.Order.Outcome.{transition-err, transition-follows_table, transition-InStep}
use vyapar_ai.Order.Undo.{confirm-stock_of, cancel-stock_of, confirm-cancel}
use vyapar_ai.Order.Supply.{apply_effect-IsSupplied}
use vyapar_ai.Order.Lifecycle.{
  Run, stop, step, rank, holds, all_taken, all_given, is_settled, Run-length, Run-once, Run-paid,
}
use vyapar_ai.Order.Pricing.{priced, subtotal_of, tax_of, compute_order_totals-priced}
use vyapar_ai.Order.Totals.{compute_order_totals}
use vyapar_ai.Tests.Sample.{
  soap_stock, quiet, shop, order, open_shop, awaiting, shop-IsKeyed, awaiting-IsKeyed,
}
use vyapar_ai.Tests.Runs.{
  oversold, adjusted_run, confirmed_run, refused_run, cancelled_run, taken_back_run,
}
use vyapar_ai.Common.Result.{err, ok}

confirm-stock_of_example :
    (confirmed ≡ confirmed)
    × ((b q : ℕ)
        → stock_of b q (transition ⦃env = quiet⦄ 7 21 confirm (some 9) open_shop).1.committed
            +ℤ demand 7 b q (items_of (record order { status = confirmed }) shop)
          ≡ stock_of b q shop)
confirm-stock_of_example =
    confirm-stock_of ⦃env = quiet⦄ 7 21 (some 9) open_shop refl shop-IsKeyed confirmed_run

cancel-stock_of_example :
    (cancelled ≡ cancelled)
    × ((b q : ℕ)
        → stock_of b q
            (transition ⦃env = quiet⦄ 7 21 cancel (some 9) (session_on awaiting)).1.committed
          ≡ stock_of b q awaiting
            +ℤ demand 7 b q (items_of (record order { status = cancelled }) awaiting))
unfolding select
cancel-stock_of_example =
    cancel-stock_of ⦃env = quiet⦄ 7 21 (some 9) (session_on awaiting) refl awaiting-IsKeyed
      {order = record order { status = confirmed }} refl refl cancelled_run

confirm-cancel_example :
    stock_of 7 1
      (transition ⦃env = quiet⦄ 7 21 cancel
        (some 9)
        (transition ⦃env = quiet⦄ 7 21 confirm (some 9) open_shop).1).1.committed
    ≡ stock_of 7 1 shop
confirm-cancel_example =
    confirm-cancel ⦃env = quiet⦄ 7 21 (some 9) open_shop refl shop-IsKeyed confirmed_run
      taken_back_run 7 1

transition-err_example : Unchanged open_shop (transition ⦃env = quiet⦄ 7 21 pack none open_shop).1
transition-err_example =
    transition-err ⦃env = quiet⦄ 7 21 pack none open_shop refl shop-IsKeyed refused_run

transition-follows_table_example :
    (o : Order) × (rule : Transition) × (select (at_id 7 21) shop.orders ≡ o ∷ [])
    × (transitions o.status confirm ≡ some rule)
    × (record order { status = confirmed } ≡ record o { status = rule.to })
    × ((transition ⦃env = quiet⦄ 7 21 confirm (some 9) open_shop).1.committed.orders
        ≡ assign (λ (p : Order). p.id) (record order { status = confirmed }) shop.orders)
transition-follows_table_example =
    transition-follows_table ⦃env = quiet⦄ 7 21 confirm (some 9) open_shop refl shop-IsKeyed
      confirmed_run

transition-InStep_example :
    InStep shop (transition ⦃env = quiet⦄ 7 21 confirm (some 9) open_shop).1.committed
transition-InStep_example =
    transition-InStep ⦃env = quiet⦄ 7 21 confirm (some 9) open_shop refl shop-IsKeyed

apply_effect-IsSupplied_example :
    IsSupplied
      (apply_effect ⦃env = quiet⦄ InventoryEffect.decrement 7 order (some 9) open_shop).1.work
unfolding all
apply_effect-IsSupplied_example =
    apply_effect-IsSupplied ⦃env = quiet⦄ 7 (some 9) InventoryEffect.decrement order open_shop refl

adjust_stock-err_example :
    Unchanged open_shop (adjust_stock ⦃env = quiet⦄ 7 11 (negsuc 10) sale none open_shop).1
adjust_stock-err_example =
    adjust_stock-err ⦃env = quiet⦄ 7 11 (negsuc 10) sale none open_shop refl oversold

adjust_stock-stock_of_example :
    stock_of 7 1 (adjust_stock ⦃env = quiet⦄ 7 11 (negsuc 6) sale none open_shop).1.committed
    ≡ stock_of 7 1 shop +ℤ at_same 7 1 7 1 (negsuc 6)
adjust_stock-stock_of_example =
    adjust_stock-stock_of ⦃env = quiet⦄ 7 11 (negsuc 6) sale none open_shop refl shop-IsKeyed
      adjusted_run 7 1

adjust_stock-InStep_example :
    InStep shop (adjust_stock ⦃env = quiet⦄ 7 11 (negsuc 6) sale none open_shop).1.committed
adjust_stock-InStep_example =
    adjust_stock-InStep ⦃env = quiet⦄ 7 11 (negsuc 6) sale none open_shop refl shop-IsKeyed

oversold-insufficient_example :
    (adjust_stock ⦃env = quiet⦄ 7 11 (negsuc 10) sale none open_shop
      ≡ (err insufficient, open_shop))
    × (stage_adjustment ⦃env = quiet⦄ 7 1 (negsuc 10) sale none open_shop
        ≡ (err insufficient, open_shop))
unfolding select ◌+ℤ◌
oversold-insufficient_example =
    oversold-insufficient ⦃env = quiet⦄ 7 (negsuc 10) sale none soap_stock open_shop refl refl refl
      refl

-- Two histories of an order.
abbrev called_off : Run created (confirm ∷ cancel ∷ []) cancelled
unfolding transitions
called_off = step _ refl (step _ refl stop)

abbrev sent_off : Run created (confirm ∷ pay ∷ pack ∷ []) packed
unfolding transitions
sent_off = step _ refl (step _ refl (step _ refl stop))

Run-length_example : length (confirm ∷ cancel ∷ []) + rank created ≤ 6
Run-length_example = Run-length called_off

Run-once_example :
    (all_taken called_off ≤ 1)
    × (all_given called_off ≤ all_taken called_off)
    × (all_taken called_off ≡ holds cancelled + all_given called_off)
Run-once_example = Run-once called_off

Run-paid_example :
    ((rest : List OrderEvent) × (confirm ∷ pay ∷ pack ∷ [] ≡ confirm ∷ pay ∷ rest))
    × (is_settled shipped ≡ true)
unfolding transitions
Run-paid_example = Run-paid sent_off refl (step {e = ship} _ refl stop)

abbrev two_lines : List (ℤ × ℤ)
two_lines = (pos 2550, pos 10) ∷ (pos 9999, pos 1) ∷ []

compute_order_totals-priced_example :
    compute_order_totals (priced two_lines) (record { coefficient = pos 18; places = 2 })
    ≡ ok (
      cents (subtotal_of two_lines),
      cents (tax_of (subtotal_of two_lines) (pos 18) 2),
      cents (subtotal_of two_lines +ℤ tax_of (subtotal_of two_lines) (pos 18) 2),
    )
compute_order_totals-priced_example = compute_order_totals-priced two_lines (pos 18) 1

quantize_cents-IsNearest_example :
    (q : ℕ) × IsNearest 638982 (10 ^ 4) q
    × (quantize_cents (record { coefficient = negsuc 638981; places = 4 }) ≡ cents (negate_ℕ q))
quantize_cents-IsNearest_example = quantize_cents-IsNearest (negsuc 638981) 4
