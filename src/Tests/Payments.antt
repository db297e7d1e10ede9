-- ===== src/Tests/Payments.antt =====
-- The theorems on payments, at the sample shop.
use vyapar_ai.Prelude.{any, ◌≡◌, refl, true, false, none, some, [], ◌∷◌, ◌⊎◌}
use vyapar_ai.Common.Error.{payment_mismatch_error}
use vyapar_ai.Common.Result.{ok}
use vyapar_ai.Models.Rows.{select}
use vyapar_ai.Models.Payment.{Payment, is_success, is_online, online, verifiable_from, terminal}
use vyapar_ai.Database.Session.{session_on}
use vyapar_ai.Database.Ends.{Held}
use vyapar_ai.Payment.{initiate, or_empty}
use vyapar_ai.Payment.Mock.{mock}
use vyapar_ai.Payment.Provider.{ProviderVerification, returned}
use vyapar_ai.Payment.Repository.{at_id}
use vyapar_ai.Payment.Settlement.{verify, confirm_cod, succeeded}
use vyapar_ai.Payment.Verdict.{Matches}
use vyapar_ai.Payment.Outcome.{SettledTogether, verify-Matches, verify-SettledTogether}
use vyapar_ai.Payment.Closed.{
  FailedOnly, verify-err, verify-terminal, verify_again, confirm_cod-ok, confirm_cod-err,
}
use vyapar_ai.Payment.Paid.{initiate-Refuses}
use vyapar_ai.Database.Refuses.{Refuses}
use vyapar_ai.Tests.Sample.{
  quiet, awaiting, online_payment, cod_payment, paid_shop, paid_payment, awaiting-IsKeyed,
  paid_shop-IsKeyed,
}
use vyapar_ai.Tests.Runs.{verified_run, failed_run, collected_run, wrong_method_run}

verify-Matches_example :
    (v : ProviderVerification) × (mock.verify_payment "pay_1"
        (or_empty online_payment.provider_order_id)
        online_payment.amount
        online_payment.currency
      ≡ returned v)
    × Matches online_payment v
unfolding select
verify-Matches_example =
    verify-Matches ⦃env = quiet⦄ mock 7 41 "pay_1" (some 9) (session_on awaiting) refl
      awaiting-IsKeyed refl refl verified_run refl

verify-SettledTogether_example :
    SettledTogether online_payment paid_payment awaiting
      (verify ⦃env = quiet⦄ mock 7 41 "pay_1" (some 9) (session_on awaiting)).1.committed
unfolding select
verify-SettledTogether_example =
    verify-SettledTogether ⦃env = quiet⦄ mock 7 41 "pay_1" (some 9) (session_on awaiting) refl
      awaiting-IsKeyed refl refl verified_run refl

verify-err_example :
    Held
      (session_on awaiting)
      (verify ⦃env = quiet⦄ mock 7 41 "pay_fail" (some 9) (session_on awaiting)).1
    ⊎ FailedOnly 7 41
        (payment_mismatch_error "gateway reported a failed payment")
        (session_on awaiting)
        (verify ⦃env = quiet⦄ mock 7 41 "pay_fail" (some 9) (session_on awaiting)).1
verify-err_example =
    verify-err ⦃env = quiet⦄ mock 7 41 "pay_fail" (some 9) (session_on awaiting) refl
      awaiting-IsKeyed failed_run

verify-terminal_example :
    (verify ⦃env = quiet⦄ mock 7 41 "pay_2" (some 9) (session_on paid_shop)).1.committed ≡ paid_shop
unfolding select terminal
verify-terminal_example =
    verify-terminal ⦃env = quiet⦄ mock 7 41 "pay_2" (some 9) (session_on paid_shop) refl
      paid_shop-IsKeyed {payment = paid_payment} refl refl

verify_again_example :
    verify ⦃env = quiet⦄ mock 7 41 "pay_fail" (some 9) (session_on paid_shop)
    ≡ (ok paid_payment, session_on paid_shop)
unfolding select
verify_again_example =
    verify_again ⦃env = quiet⦄ mock 7 41 "pay_fail" (some 9) (session_on paid_shop) refl
      paid_shop-IsKeyed refl refl refl

confirm_cod-ok_example :
    (payment : Payment) × (select (at_id 7 42) awaiting.payments ≡ payment ∷ [])
    × (is_online payment.method ≡ false)
    × (((is_success payment.status ≡ true)
          × (succeeded cod_payment none 0 ≡ payment)
          × ((confirm_cod ⦃env = quiet⦄ 7 42 (some 9) (session_on awaiting)).1.committed
              ≡ awaiting))
        ⊎ ((verifiable_from payment.status ≡ true)
            × (is_success (succeeded cod_payment none 0).status ≡ true)
            × SettledTogether payment
                (succeeded cod_payment none 0)
                awaiting
                (confirm_cod ⦃env = quiet⦄ 7 42 (some 9) (session_on awaiting)).1.committed))
confirm_cod-ok_example =
    confirm_cod-ok ⦃env = quiet⦄ 7 42 (some 9) (session_on awaiting) refl awaiting-IsKeyed
      collected_run

confirm_cod-err_example :
    Held (session_on awaiting) (confirm_cod ⦃env = quiet⦄ 7 41 (some 9) (session_on awaiting)).1
confirm_cod-err_example =
    confirm_cod-err ⦃env = quiet⦄ 7 41 (some 9) (session_on awaiting) refl awaiting-IsKeyed
      wrong_method_run

initiate-Refuses_example :
    Refuses (initiate ⦃env = quiet⦄ mock "INR" 7 21 online (some "k9")) (session_on paid_shop)
unfolding any
initiate-Refuses_example =
    initiate-Refuses ⦃env = quiet⦄ (session_on paid_shop) mock "INR" 7 21 online (some "k9") refl
