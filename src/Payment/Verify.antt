-- ===== src/Payment/Verify.antt =====
-- How `verify` and `confirm_cod` of app/payment/service.py end, from their guards to the gateway.
use vyapar_ai.Prelude.{
  ℕ, String, ◌≡◌, refl, ap, ◌∙◌, Bool, true, false, not, Option, none, some, [], ◌∷◌, ◌⊎◌, inl, inr,
  arith,
}
use vyapar_ai.Common.Error.{Error}
use vyapar_ai.Common.Result.{ok}
use vyapar_ai.Models.Rows.{select}
use vyapar_ai.Models.Rows.Assign.{select_of_one_or_none}
use vyapar_ai.Models.Payment.{Payment, is_online, is_success, verifiable_from}
use vyapar_ai.Database.Session.{
  Env, Session, Exec, raise, rollback, or_raise, or_rollback, ◌>>=◌, ◌>>◌,
}
use vyapar_ai.Database.Ends.{Ends, Held, pure-Ends, raise-Ends, weaken-Ends, map-Ends, if-Ends}
use vyapar_ai.Database.Steps.{after_find, after_query, after_rollback}
use vyapar_ai.Inventory.Balance.{IsKeyed}
use vyapar_ai.Order.{get_order}
use vyapar_ai.Order.Repository.{get}
use vyapar_ai.Payment.{or_empty, reject_if, gateway_down}
use vyapar_ai.Payment.Provider.{PaymentProvider, ProviderVerification, Answer, returned, raised}
use vyapar_ai.Payment.Repository.{at_id, lock_for_update}
use vyapar_ai.Payment.Settlement.{judge, ask_gateway, when_awaiting, verify, confirm_cod}
use vyapar_ai.Payment.Settles.{Settles, succeed-Ends}
use vyapar_ai.Payment.Verdict.{Lost, Fails, Judged, judge-Ends}

true_of_not : (b : Bool) → not b ≡ false → b ≡ true
true_of_not b h = ground arith

module _ {B : Type 0} {Q : B → Session → Type 0} {E : Error → Session → Type 0} where
  pub after_reject_if :
      (c : Bool) (e : Error) (f : Unit {0} → Exec B) {s : Session}
      → (c ≡ true → E e (record s { work = s.committed }))
      → (c ≡ false → Ends Q E (f tt) s)
      → Ends Q E (reject_if c e >>= f) s
  unfolding ◌>>=◌
  after_reject_if true e f h k = record { at = h refl }
  after_reject_if false e f h k = record { at = (k refl).at }

module _ {A B : Type 0} {Q : B → Session → Type 0} {E : Error → Session → Type 0} where
  pub after_known_row :
      (o : Option A) (e : Error) (f : A → Exec B) {s : Session}
      → (o ≡ none → E e (record s { work = s.committed }))
      → ((a : A) → o ≡ some a → Ends Q E (f a) s)
      → Ends Q E (or_rollback (or_raise o e) >>= f) s
  unfolding ◌>>=◌ or_rollback
  after_known_row none e f h k = record { at = h refl }
  after_known_row (some a) e f h k = record { at = (k a refl).at }

module _ ⦃env : Env⦄ (business_id payment_id : ℕ) (s : Session) (keyed : IsKeyed s.work) where
  abbrev pub There : Payment → Type 0
  There payment = select (at_id business_id payment_id) s.work.payments ≡ payment ∷ []

  -- A payment that is found settled already is returned as it is, without a word to the gateway.
  abbrev pub Already : Payment → Payment → Session → Type 0
  Already payment r t =
      (is_success payment.status ≡ true) × (r ≡ payment) × (t ≡ record s { work = s.committed })

  -- What lets a payment be settled: it is open, and its order is found.

  pub when_awaiting-Ends :
      (verb : String) (payment : Payment) (rest : Exec Payment) {Q : Payment → Session → Type 0}
      {E : Error → Session → Type 0}
      → ((e : Error) (t : Session) → Held s t → E e t)
      → (is_success payment.status ≡ true → Q payment (record s { work = s.committed }))
      → (is_success payment.status ≡ false
          → verifiable_from payment.status ≡ true
          → Ends Q E rest s)
      → Ends Q E (when_awaiting business_id verb payment rest) s
  unfolding when_awaiting get_order get
  when_awaiting-Ends verb payment rest refused already go_on =
      if-Ends _ (λ done. after_rollback _ (pure-Ends _ (already done)))
        λ undone.
          after_reject_if _ _ _ (λ _. refused _ _ (refl, refl))
            λ fit.
              after_find _ _ _ (λ e. refused _ _ (refl, refl))
                λ order found.
                  after_reject_if _ _ _ (λ _. refused _ _ (refl, refl))
                    λ _. go_on undone (true_of_not _ fit)

  -- What a verification that returns has done with the payment that it locked.
  pub record Verifies (provider : PaymentProvider) (pid : String) (actor : Option ℕ) (r : Payment)
      (t : Session) : Type 0 where
    pub payment : Payment
    pub there : There payment
    pub method : is_online payment.method ≡ true
    pub verdict :
        Already payment r t
        ⊎ ((is_success payment.status ≡ false)
            × (verifiable_from payment.status ≡ true)
            × (v : ProviderVerification) × (provider.verify_payment pid
                  (or_empty payment.provider_order_id)
                  payment.amount
                  payment.currency
                ≡ returned v)
            × Judged payment s keyed (at_id business_id payment_id) there v actor r t)

  -- What a verification that raises has done: nothing, or the payment that it locked has failed.
  abbrev pub Rejects : Error → Session → Type 0
  Rejects e t =
      Held s t
      ⊎ ((payment : Payment) × (there : There payment) × (verifiable_from payment.status ≡ true)
          × Fails payment s keyed (at_id business_id payment_id) there e t)

  ask_gateway-Ends :
      (provider : PaymentProvider) (payment : Payment) (there : There payment) (pid : String)
      (actor : Option ℕ)
      → Ends
          (λ r t.
            (v : ProviderVerification) × (provider.verify_payment pid
                (or_empty payment.provider_order_id)
                payment.amount
                payment.currency
              ≡ returned v)
            × Judged payment s keyed (at_id business_id payment_id) there v actor r t)
          (Lost payment s keyed (at_id business_id payment_id) there)
          (ask_gateway provider payment pid actor)
          s
  unfolding ask_gateway
  ask_gateway-Ends provider payment there pid actor =
      answered (provider.verify_payment _ _ _ _) refl
    where
      answered :
          (a : Answer ProviderVerification)
          → provider.verify_payment pid
              (or_empty payment.provider_order_id)
              payment.amount
              payment.currency
            ≡ a
          → Ends
              (λ r t.
                (v : ProviderVerification) × (provider.verify_payment pid
                    (or_empty payment.provider_order_id)
                    payment.amount
                    payment.currency
                  ≡ returned v)
                × Judged payment s keyed (at_id business_id payment_id) there v actor r t)
              (Lost payment s keyed (at_id business_id payment_id) there)
              (elim a [
                | raised e ↦ rollback >> raise gateway_down
                | returned result ↦ judge payment result actor
              ])
              s
      answered (raised d) e = after_rollback _ (raise-Ends _ (inl (refl, refl)))
      answered (returned v) e =
          map-Ends (judge-Ends payment s keyed (at_id business_id payment_id) there v actor)
            (λ r t h. (v, e, h))

  pub verify-Ends :
      (provider : PaymentProvider) (pid : String) (actor : Option ℕ)
      → Ends
          (Verifies provider pid actor)
          Rejects
          (verify provider business_id payment_id pid actor)
          s
  unfolding verify lock_for_update
  verify-Ends provider pid actor =
      after_query _ _ (λ e _. inl (refl, refl))
        λ o e.
          after_known_row o _ _ (λ _. inl (refl, refl))
            λ payment f.
              let there : There payment =
                select_of_one_or_none (select (at_id business_id payment_id) s.work.payments)
                  (e ∙ ap ok f) in
              after_reject_if _ _ _ (λ _. inl (refl, refl))
                λ method.
                  when_awaiting-Ends "verify" payment _ (λ e t h. inl h)
                    (λ done. record {
                      payment = payment;
                      there = there;
                      method = true_of_not _ method;
                      verdict = inl (done, refl, refl);
                    })
                    λ undone fit.
                      weaken-Ends
                        (map-Ends (ask_gateway-Ends provider payment there pid actor) (λ r t h.
                          record {
                            payment = payment;
                            there = there;
                            method = true_of_not _ method;
                            verdict = inr (undone, fit, h.0, h.1, h.2);
                          }))
                        (λ e t h. elim h [ inl u ↦ inl u | inr u ↦ inr (payment, there, fit, u) ])

  -- What a confirmation of cash on delivery that returns has done with the payment that it locked.
  pub record Confirms (actor : Option ℕ) (r : Payment) (t : Session) : Type 0 where
    pub payment : Payment
    pub there : There payment
    pub method : is_online payment.method ≡ false
    pub verdict :
        Already payment r t
        ⊎ ((is_success payment.status ≡ false)
            × (verifiable_from payment.status ≡ true)
            × Settles payment none actor s keyed (at_id business_id payment_id) there r t)

  pub confirm_cod-Ends :
      (actor : Option ℕ)
      → Ends (Confirms actor) (λ e t. Held s t) (confirm_cod business_id payment_id actor) s
  unfolding confirm_cod lock_for_update
  confirm_cod-Ends actor =
      after_query _ _ (λ e _. (refl, refl))
        λ o e.
          after_known_row o _ _ (λ _. (refl, refl))
            λ payment f.
              let there : There payment =
                select_of_one_or_none (select (at_id business_id payment_id) s.work.payments)
                  (e ∙ ap ok f) in
              after_reject_if _ _ _ (λ _. (refl, refl))
                λ method.
                  when_awaiting-Ends "confirm" payment _ (λ e t h. h)
                    (λ done. record {
                      payment = payment;
                      there = there;
                      method = method;
                      verdict = inl (done, refl, refl);
                    })
                    λ undone fit.
                      map-Ends
                        (succeed-Ends payment none actor s keyed (at_id business_id payment_id)
                          there)
                        (λ r t h. record {
                          payment = payment;
                          there = there;
                          method = method;
                          verdict = inr (undone, fit, h);
                        })
