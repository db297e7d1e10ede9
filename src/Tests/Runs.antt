-- ===== src/Tests/Runs.antt =====
-- Runs of the services on the sample shop.
use vyapar_ai.Prelude.{◌≡◌, refl, none, some, [], ◌∷◌}
use vyapar_ai.Prelude.Int.{pos, negsuc, ◌+ℤ◌, ◌*ℤ◌}
use vyapar_ai.Common.Error.{payment_mismatch_error, payment_state_error}
use vyapar_ai.Common.Result.{ok, err}
use vyapar_ai.Common.Decimal.{cents}
use vyapar_ai.Models.Inventory.{sale}
use vyapar_ai.Models.Order.{OrderStatus, confirm, cancel, pack}
use vyapar_ai.Models.Rows.{select, one_or_none, first, assign, order_by, insert_by}
use vyapar_ai.Inventory.{adjust_stock, insufficient, write_stock, pending_event}
use vyapar_ai.Order.{transition, cannot_apply}
use vyapar_ai.Order.Totals.{compute_order_totals}
use vyapar_ai.Database.Session.{sent, commit, session_on, ◌>>=◌, or_rollback, reload, fresh, now}
use vyapar_ai.Payment.Mock.{mock, verify_payment}
use vyapar_ai.Payment.Settlement.{verify, confirm_cod, succeeded}
use vyapar_ai.Tests.Sample.{
  quiet, order, soap_stock, open_shop, awaiting, cod_payment, paid_payment,
}

pub oversold :
    (adjust_stock ⦃env = quiet⦄ 7 11 (negsuc 10) sale none open_shop).0 ≡ err insufficient
unfolding adjust_stock ◌+ℤ◌ select one_or_none ◌>>=◌ or_rollback write_stock
oversold = refl

pub adjusted_run :
    (adjust_stock ⦃env = quiet⦄ 7 11 (negsuc 6) sale none open_shop).0
    ≡ ok (record soap_stock { quantity = pos 3 })
unfolding adjust_stock ◌+ℤ◌ select one_or_none ◌>>=◌ or_rollback write_stock fresh sent assign
    commit reload first pending_event
adjusted_run = refl

pub confirmed_run :
    (transition ⦃env = quiet⦄ 7 21 confirm (some 9) open_shop).0
    ≡ ok (record order { status = OrderStatus.confirmed })
unfolding transition ◌+ℤ◌ ◌*ℤ◌ select one_or_none first assign order_by insert_by sent ◌>>=◌
    or_rollback write_stock fresh reload pending_event
confirmed_run = refl

pub refused_run :
    (transition ⦃env = quiet⦄ 7 21 pack none open_shop).0
    ≡ err (cannot_apply pack OrderStatus.created)
unfolding transition select one_or_none ◌>>=◌
refused_run = refl

pub cancelled_run :
    (transition ⦃env = quiet⦄ 7 21 cancel (some 9) (session_on awaiting)).0
    ≡ ok (record order { status = OrderStatus.cancelled })
unfolding transition ◌+ℤ◌ ◌*ℤ◌ select one_or_none first assign order_by insert_by sent ◌>>=◌
    or_rollback write_stock fresh reload pending_event
cancelled_run = refl

pub taken_back_run :
    (transition ⦃env = quiet⦄ 7 21 cancel
      (some 9)
      (transition ⦃env = quiet⦄ 7 21 confirm (some 9) open_shop).1).0
    ≡ ok (record order { status = OrderStatus.cancelled })
unfolding transition ◌+ℤ◌ ◌*ℤ◌ select one_or_none first assign order_by insert_by sent ◌>>=◌
    or_rollback write_stock fresh reload pending_event
taken_back_run = refl

pub verified_run :
    (verify ⦃env = quiet⦄ mock 7 41 "pay_1" (some 9) (session_on awaiting)).0 ≡ ok paid_payment
unfolding verify transition ◌+ℤ◌ ◌*ℤ◌ select one_or_none first assign order_by insert_by sent ◌>>=◌
    or_rollback fresh reload now verify_payment
verified_run = refl

pub failed_run :
    (verify ⦃env = quiet⦄ mock 7 41 "pay_fail" (some 9) (session_on awaiting)).0
    ≡ err (payment_mismatch_error "gateway reported a failed payment")
unfolding verify transition ◌+ℤ◌ ◌*ℤ◌ select one_or_none first assign order_by insert_by sent ◌>>=◌
    or_rollback fresh reload now verify_payment
failed_run = refl

pub collected_run :
    (confirm_cod ⦃env = quiet⦄ 7 42 (some 9) (session_on awaiting)).0
    ≡ ok (succeeded cod_payment none 0)
unfolding confirm_cod transition ◌+ℤ◌ ◌*ℤ◌ select one_or_none first assign order_by insert_by sent
    ◌>>=◌ or_rollback fresh reload now
collected_run = refl

pub wrong_method_run :
    (confirm_cod ⦃env = quiet⦄ 7 41 (some 9) (session_on awaiting)).0
    ≡ err (payment_state_error "not a COD payment")
unfolding confirm_cod select one_or_none ◌>>=◌ or_rollback
wrong_method_run = refl

totals_run :
    compute_order_totals
      ((cents (pos 2550), pos 10) ∷ (cents (pos 9999), pos 1) ∷ [])
      (record { coefficient = pos 18; places = 2 })
    ≡ ok (cents (pos 35499), cents (pos 6390), cents (pos 41889))
unfolding compute_order_totals ◌+ℤ◌ ◌*ℤ◌
totals_run = refl
