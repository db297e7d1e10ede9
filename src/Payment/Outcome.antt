-- ===== src/Payment/Outcome.antt =====
-- What `verify` and `confirm_cod` of app/payment/service.py promise.
use mathlib.Core.Path.{subst}
use vyapar_ai.Prelude.{
  ℕ, String, ◌≡◌, sym, ap, ◌∙◌, Bool, true, false, Option, some, [], ◌∷◌, inl, inr,
}
use vyapar_ai.Common.Result.{Result, ok}
use vyapar_ai.Models.Rows.{select, assign}
use vyapar_ai.Models.Order.{Order, OrderStatus}
use vyapar_ai.Models.Payment.{Payment, is_success}
use vyapar_ai.Database.Tables.{Tables}
use vyapar_ai.Database.Session.{Env, Session}
use vyapar_ai.Database.Ends.{Ends-ok}
use vyapar_ai.Inventory.Balance.{IsKeyed}
use vyapar_ai.Order.Repository.{at_id as order_at_id}
use vyapar_ai.Payment.{or_empty}
use vyapar_ai.Payment.Provider.{PaymentProvider, ProviderVerification, returned}
use vyapar_ai.Payment.Repository.{at_id}
use vyapar_ai.Payment.Settlement.{verify}
use vyapar_ai.Payment.Settles.{Settles}
use vyapar_ai.Payment.Verdict.{Matches}
use vyapar_ai.Payment.Verify.{Verifies, verify-Ends}

pub head_eq : {a b : Payment} → a ∷ [] ≡ b ∷ [] → a ≡ b
head_eq h = cc

not_both : (p : Payment) → is_success p.status ≡ false → is_success p.status ≡ true → ⊥
not_both p a b = cc

-- The payment and its order are settled together, in the committed tables: the order was awaiting
-- payment and is paid.
abbrev pub SettledTogether : Payment → Payment → Tables → Tables → Type 0
SettledTogether payment r before after =
    (order : Order) × (select (order_at_id payment.business_id payment.order_id) before.orders
      ≡ order ∷ [])
    × (order.status ≡ OrderStatus.confirmed)
    × (after.payments ≡ assign (λ (q : Payment). q.id) r before.payments)
    × (after.orders
        ≡ assign (λ (o : Order). o.id) (record order { status = OrderStatus.paid }) before.orders)

module _ ⦃env : Env⦄ {payment r : Payment} {pid : Option String} {actor : Option ℕ} {s t : Session}
    {keyed : IsKeyed s.work} {p : Payment → Bool} {there : select p s.work.payments ≡ payment ∷ []}
    (clean : s.work ≡ s.committed) where
  pub together :
      Settles payment pid actor s keyed p there r t
      → SettledTogether payment r s.committed t.committed
  together g = (
    g.order,
    ap (λ (w : Tables). select (order_at_id payment.business_id payment.order_id) w.orders)
          (sym clean)
        ∙ g.found,
    g.awaiting,
    ap (λ (w : Tables). w.payments) g.committed
        ∙ g.payments
        ∙ ap (λ (w : Tables). assign (λ (q : Payment). q.id) r w.payments) clean,
    ap (λ (w : Tables). w.orders) g.committed
        ∙ g.orders
        ∙ ap
            (λ (w : Tables).
              assign (λ (o : Order). o.id) (record g.order { status = OrderStatus.paid }) w.orders)
            clean,
  )

module _ ⦃env : Env⦄ (provider : PaymentProvider) (business_id payment_id : ℕ) (pid : String)
    (actor : Option ℕ) (s : Session) (clean : s.work ≡ s.committed)
    (keyed : IsKeyed s.committed) where
  abbrev keyed_work : IsKeyed s.work
  keyed_work = rw clean keyed

  abbrev run : Result Payment × Session
  run = verify provider business_id payment_id pid actor s

  there_again :
      {p q : Payment}
      → select (at_id business_id payment_id) s.committed.payments ≡ p ∷ []
      → select (at_id business_id payment_id) s.work.payments ≡ q ∷ []
      → p ≡ q
  there_again f g = head_eq (
      sym f ∙ ap (λ (w : Tables). select (at_id business_id payment_id) w.payments) (sym clean) ∙ g)

  verifies :
      {r : Payment}
      → run.0 ≡ ok r
      → Verifies business_id payment_id s keyed_work provider pid actor r run.1
  verifies h = Ends-ok (verify-Ends business_id payment_id s keyed_work provider pid actor) h

  -- A payment that was open and is returned as settled.
  abbrev Settled :
      Payment
      → (p : Payment) → select (at_id business_id payment_id) s.work.payments ≡ p ∷ []
      → Type 0
  Settled r p there =
      (v : ProviderVerification) × (provider.verify_payment pid (or_empty p.provider_order_id)
          p.amount p.currency
        ≡ returned v)
      × Matches p v
      × Settles p (some v.provider_payment_id) actor s keyed_work (at_id business_id payment_id)
          there r run.1

  open-Settled :
      {r : Payment} (v : Verifies business_id payment_id s keyed_work provider pid actor r run.1)
      → is_success v.payment.status ≡ false
      → is_success r.status ≡ true
      → Settled r v.payment v.there
  open-Settled v open_before settled = elim (v.verdict) [
    | inl (was, same, t) ↦ absurd (not_both v.payment open_before was)
    | inr (_, _, x, e, inl (_, h)) ↦
        cc (sym settled ∙ ap (λ (p : Payment). is_success p.status) h.result)
    | inr (_, _, x, e, inr (m, h)) ↦ (x, e, m, h)
  ]

  -- A payment that was not settled and is returned as settled matched the facts of the gateway: it
  -- answered with a success for the same provider order, amount and currency.
  -- The payment is the one row of the business under the id, and the session has no pending writes
  -- before, nor two inventory rows with one primary key.
  pub verify-Matches :
      {payment r : Payment}
      → select (at_id business_id payment_id) s.committed.payments ≡ payment ∷ []
      → is_success payment.status ≡ false
      → run.0 ≡ ok r
      → is_success r.status ≡ true
      → (v : ProviderVerification) × (provider.verify_payment pid
            (or_empty payment.provider_order_id)
            payment.amount
            payment.currency
          ≡ returned v)
        × Matches payment v
  verify-Matches {payment} {r} found unsettled h settled =
      let v = verifies h in
      let same : payment ≡ v.payment = there_again found v.there in
      let (x, e, m, _) =
        open-Settled v (ap (λ (p : Payment). is_success p.status) (sym same) ∙ unsettled) settled in
      subst
        (λ (p : Payment).
          (v : ProviderVerification) × (provider.verify_payment pid (or_empty p.provider_order_id)
              p.amount p.currency
            ≡ returned v)
          × Matches p v)
        (sym same) (x, e, m)

  -- A payment that was not settled and is returned as settled was settled together with its order,
  -- which was awaiting payment and is now paid: both rows are committed.
  -- The payment is the one row of the business under the id, and the session has no pending writes
  -- before, nor two inventory rows with one primary key.
  pub verify-SettledTogether :
      {payment r : Payment}
      → select (at_id business_id payment_id) s.committed.payments ≡ payment ∷ []
      → is_success payment.status ≡ false
      → run.0 ≡ ok r
      → is_success r.status ≡ true
      → SettledTogether payment r s.committed run.1.committed
  verify-SettledTogether {payment} {r} found unsettled h settled =
      let v = verifies h in
      let same : payment ≡ v.payment = there_again found v.there in
      let (_, _, _, g) =
        open-Settled v (ap (λ (p : Payment). is_success p.status) (sym same) ∙ unsettled) settled in
      subst (λ (p : Payment). SettledTogether p r s.committed run.1.committed) (sym same)
        (together clean g)
