-- ===== src/Payment/Closed.antt =====
-- What `verify` and `confirm_cod` of app/payment/service.py leave as it is: the errors, and the
-- payments that are closed.
use vyapar_ai.Prelude.{
  ℕ, String, ◌≡◌, refl, sym, ap, ◌∙◌, Bool, true, false, not, Option, some, [], ◌∷◌, ◌++◌, ◌⊎◌, inl,
  inr, arith,
}
use vyapar_ai.Common.Error.{Error, payment_mismatch_error}
use vyapar_ai.Common.Event.{payment_failed}
use vyapar_ai.Common.Result.{Result, ok, err}
use vyapar_ai.Models.Rows.{select, one_or_none}
use vyapar_ai.Models.Payment.{Payment, is_success, is_online, terminal, verifiable_from}
use vyapar_ai.Database.Tables.{Tables}
use vyapar_ai.Database.Session.{Env, Session}
use vyapar_ai.Database.Ends.{Ends-ok, Ends-err, Ends-sure, ok_injective, Held, if-Ends, pure-Ends}
use vyapar_ai.Inventory.Balance.{IsKeyed}
use vyapar_ai.Payment.Provider.{PaymentProvider}
use vyapar_ai.Payment.Repository.{at_id, set_payment, lock_for_update}
use vyapar_ai.Payment.Settlement.{verify, confirm_cod, failed_with, when_awaiting}
use vyapar_ai.Database.Steps.{after_query, after_rollback}
use vyapar_ai.Payment.Verify.{
  after_known_row, after_reject_if, Verifies, Confirms, Rejects, verify-Ends, confirm_cod-Ends,
}
use vyapar_ai.Payment.Outcome.{head_eq, SettledTogether, together}

some_injective : {a b : Payment} → some a ≡ some b → a ≡ b
some_injective h = cc

both : (b : Bool) → b ≡ true → not b ≡ true → ⊥
both b h k = ground arith

apart : (b : Bool) → b ≡ true → b ≡ false → ⊥
apart b h k = ground arith

not_closed : (p : Payment) → verifiable_from p.status ≡ true → terminal p.status ≡ true → ⊥
unfolding verifiable_from terminal
not_closed p a b = ground arith

-- An open payment of the committed tables has failed, which is reported as `e` and published.
abbrev pub FailedOnly : ℕ → ℕ → Error → Session → Session → Type 0
FailedOnly business_id payment_id e s t =
    (payment : Payment) × (code : String) × (reason : String) × (select
        (at_id business_id payment_id) s.committed.payments
      ≡ payment ∷ [])
    × (verifiable_from payment.status ≡ true)
    × (e ≡ payment_mismatch_error reason)
    × (t.committed ≡ set_payment (failed_with payment code reason) s.committed)
    × (t.published
        ≡ s.published ++ payment_failed payment.business_id payment.order_id payment.id code ∷ [])

module _ ⦃env : Env⦄ (provider : PaymentProvider) (business_id payment_id : ℕ) (pid : String)
    (actor : Option ℕ) (s : Session) (clean : s.work ≡ s.committed)
    (keyed : IsKeyed s.committed) where
  abbrev keyed_work : IsKeyed s.work
  keyed_work = rw clean keyed

  abbrev run : Result Payment × Session
  run = verify provider business_id payment_id pid actor s

  rejects : {e : Error} → run.0 ≡ err e → Rejects business_id payment_id s keyed_work e run.1
  rejects h = Ends-err (verify-Ends business_id payment_id s keyed_work provider pid actor) h

  here :
      {p : Payment}
      → select (at_id business_id payment_id) s.work.payments ≡ p ∷ []
      → select (at_id business_id payment_id) s.committed.payments ≡ p ∷ []
  here f = ap (λ (w : Tables). select (at_id business_id payment_id) w.payments) (sym clean) ∙ f

  -- A verification that raises has committed and published nothing, or it has closed one open
  -- payment as failed, which is committed, published and reported as a mismatch; no order and no
  -- stock is touched.
  -- The session has no pending writes before, and no two inventory rows have one primary key.
  pub verify-err :
      {e : Error} → run.0 ≡ err e → Held s run.1 ⊎ FailedOnly business_id payment_id e s run.1
  verify-err h = elim (rejects h) [
    | inl u ↦ inl u
    | inr (payment, there, fit, f) ↦ inr (
      payment,
      f.code,
      f.reason,
      here there,
      fit,
      f.error,
      f.committed ∙ ap (λ w. set_payment (failed_with payment f.code f.reason) w) clean,
      f.published,
    )
  ]

  terminal_result :
      (x : Result Payment × Session) {payment : Payment}
      → select (at_id business_id payment_id) s.committed.payments ≡ payment ∷ []
      → terminal payment.status ≡ true
      → ((r : Payment)
          → x.0 ≡ ok r
          → Verifies business_id payment_id s keyed_work provider pid actor r x.1)
      → ((e : Error) → x.0 ≡ err e → Rejects business_id payment_id s keyed_work e x.1)
      → x.1.committed ≡ s.committed
  terminal_result (ok r, t) found closed h k =
      let v = h r refl in
      elim (v.verdict) [
        | inl (_, _, same) ↦ ap (λ (u : Session). u.committed) same
        | inr (_, fit, _, _, _) ↦ absurd (
            not_closed v.payment fit (
              ap (λ (p : Payment). terminal p.status) (head_eq (sym (here v.there) ∙ found))
              ∙ closed))
      ]
  terminal_result (err e, t) found closed h k = elim (k e refl) [
    | inl u ↦ u.0
    | inr (payment, there, fit, f) ↦ absurd (
        not_closed payment fit
          (ap (λ (p : Payment). terminal p.status) (head_eq (sym (here there) ∙ found)) ∙ closed))
  ]

  -- However the verification of a payment that has succeeded, failed or been cancelled ends, the
  -- committed tables stay as they are.
  -- The payment is the one row of the business under the id, and the session has no pending writes
  -- before, nor two inventory rows with one primary key.
  pub verify-terminal :
      {payment : Payment}
      → select (at_id business_id payment_id) s.committed.payments ≡ payment ∷ []
      → terminal payment.status ≡ true
      → run.1.committed ≡ s.committed
  verify-terminal found closed =
      terminal_result run found closed
        (λ r h. Ends-ok (verify-Ends business_id payment_id s keyed_work provider pid actor) h)
        (λ e h. rejects h)

  -- The verification of an online payment that has succeeded returns it as it is and writes nothing,
  -- whatever the gateway would answer.
  -- The payment is the one row of the business under the id, and the session has no pending writes
  -- before, nor two inventory rows with one primary key.
  pub verify_again :
      {payment : Payment}
      → select (at_id business_id payment_id) s.committed.payments ≡ payment ∷ []
      → is_online payment.method ≡ true
      → is_success payment.status ≡ true
      → run ≡ (ok payment, record s { work = s.committed })
  unfolding verify lock_for_update one_or_none when_awaiting
  verify_again {payment} found method done =
      let single : one_or_none (select (at_id business_id payment_id) s.work.payments)
          ≡ ok (some payment) =
        ap (λ (w : Tables). one_or_none (select (at_id business_id payment_id) w.payments)) clean
        ∙ ap one_or_none found in
      Ends-sure (
        after_query _ _ (λ e h. cc (sym single ∙ h))
          λ o h.
            let one : some payment ≡ o = ok_injective (sym single ∙ h) in
            after_known_row o _ _ (λ z. cc (one ∙ z))
              λ p z.
                let same : payment ≡ p = some_injective (one ∙ z) in
                let by_gateway : is_online p.method ≡ true =
                  ap (λ (q : Payment). is_online q.method) (sym same) ∙ method in
                let succeeded : is_success p.status ≡ true =
                  ap (λ (q : Payment). is_success q.status) (sym same) ∙ done in
                after_reject_if _ _ _ (λ c. absurd (both _ by_gateway c))
                  λ _.
                    if-Ends _ (λ _. after_rollback _ (pure-Ends _ (sym same, refl)))
                      (λ c. absurd (apart _ succeeded c)))

module _ ⦃env : Env⦄ (business_id payment_id : ℕ) (actor : Option ℕ) (s : Session)
    (clean : s.work ≡ s.committed) (keyed : IsKeyed s.committed) where
  -- A confirmation of cash on delivery that raises has committed and published nothing.
  -- The session has no pending writes before, and no two inventory rows have one primary key.
  pub confirm_cod-err :
      {e : Error}
      → (confirm_cod business_id payment_id actor s).0 ≡ err e
      → Held s (confirm_cod business_id payment_id actor s).1
  confirm_cod-err h = Ends-err (confirm_cod-Ends business_id payment_id s (rw clean keyed) actor) h

  -- A confirmation of cash on delivery that returns found a payment that is not online; either it
  -- had succeeded before and nothing is written, or it was open and is settled together with its
  -- order, which was awaiting payment and is now paid.
  -- The session has no pending writes before, and no two inventory rows have one primary key.
  pub confirm_cod-ok :
      {r : Payment}
      → (confirm_cod business_id payment_id actor s).0 ≡ ok r
      → (payment : Payment) × (select (at_id business_id payment_id) s.committed.payments
          ≡ payment ∷ [])
        × (is_online payment.method ≡ false)
        × (((is_success payment.status ≡ true)
              × (r ≡ payment)
              × ((confirm_cod business_id payment_id actor s).1.committed ≡ s.committed))
            ⊎ ((verifiable_from payment.status ≡ true)
                × (is_success r.status ≡ true)
                × SettledTogether payment r s.committed
                    (confirm_cod business_id payment_id actor s).1.committed))
  confirm_cod-ok {r} h =
      let v : Confirms business_id payment_id s (rw clean keyed) actor r _ =
        Ends-ok (confirm_cod-Ends business_id payment_id s (rw clean keyed) actor) h in
      (
        v.payment,
        ap (λ (w : Tables). select (at_id business_id payment_id) w.payments) (sym clean) ∙ v.there,
        v.method,
        elim (v.verdict) [
          | inl (done, same, t) ↦ inl (done, same, ap (λ (u : Session). u.committed) t)
          | inr (_, fit, g) ↦
              inr (fit, ap (λ (p : Payment). is_success p.status) g.result, together clean g)
        ],
      )
