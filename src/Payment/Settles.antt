-- ===== src/Payment/Settles.antt =====
-- What `_succeed` of app/payment/service.py does: the payment and its order are settled together.
use vyapar_ai.Prelude.{
  ◌+◌, ℕ, String, ◌≡◌, refl, sym, ap, ◌∙◌, Bool, true, Option, some, [], ◌∷◌, ◌==◌,
}
use vyapar_ai.Common.Error.{Error, is_integrity, is_conflict}
use vyapar_ai.Models.Rows.{select, first, assign}
use vyapar_ai.Models.Rows.Assign.{first-select-assign, select_of_one_or_none}
use vyapar_ai.Models.Order.{Order, OrderStatus, InventoryEffect, Transition, transitions, pay}
use vyapar_ai.Models.Payment.{Payment}
use vyapar_ai.Database.Tables.{admitted}
use vyapar_ai.Database.Session.{Env, Session, now, catch, modify, flush, ◌>>◌}
use vyapar_ai.Database.Ends.{
  Ends, Held, bind-Ends, pure-Ends, raise-Ends, catch-Ends, weaken-Ends, if-Ends,
}
use vyapar_ai.Database.Steps.{
  after_modify, after_flush, after_reload, after_known, after_publish, after_rollback,
}
use vyapar_ai.Inventory.Balance.{IsKeyed}
use vyapar_ai.Order.{transition}
use vyapar_ai.Order.Repository.{at_id as order_at_id}
use vyapar_ai.Order.Transition.{Moves, transition-Ends}
use vyapar_ai.Payment.Repository.{set_payment}
use vyapar_ai.Payment.Settlement.{succeed, succeeded, not_paid}

pay_rule :
    (status : OrderStatus) {rule : Transition}
    → transitions status pay ≡ some rule
    → (status ≡ OrderStatus.confirmed)
      × (record { to = OrderStatus.paid; effect = InventoryEffect.no_effect } ≡ rule)
unfolding transitions
pay_rule OrderStatus.confirmed h = (refl, cc h)
pay_rule _ h = cc h

module _ ⦃env : Env⦄ (payment : Payment) (provider_payment_id : Option String) (actor : Option ℕ)
    (s : Session) (keyed : IsKeyed s.work) (p : Payment → Bool)
    (there : select p s.work.payments ≡ payment ∷ []) where
  abbrev changed : Payment
  changed = succeeded payment provider_payment_id (env.now s.calls)

  -- The session when the payment has been written, and not yet its order.
  abbrev written : Session
  written = record s { work = set_payment changed s.work; calls = s.calls + 1 }

  -- What `_succeed` has done when it returns.
  pub record Settles (r : Payment) (t : Session) : Type 0 where
    pub result : r ≡ succeeded payment provider_payment_id (env.now s.calls)
    pub order : Order
    pub found : select (order_at_id payment.business_id payment.order_id) s.work.orders ≡ order ∷ []
    pub awaiting : order.status ≡ OrderStatus.confirmed
    pub committed : t.committed ≡ t.work
    pub admitted_after : admitted t.work ≡ true
    pub payments : t.work.payments ≡ assign (λ (q : Payment). q.id) r s.work.payments
    pub orders :
        t.work.orders
        ≡ assign (λ (o : Order). o.id) (record order { status = OrderStatus.paid }) s.work.orders

  not_paid-Ends :
      {A : Type 0} {Q : A → Session → Type 0} (e : Error) (t : Session)
      → Held s t
      → Ends Q (λ e t. Held s t) (not_paid e) t
  not_paid-Ends e t h =
      if-Ends (is_integrity e) (λ _. after_rollback _ (raise-Ends _ h))
        λ _. if-Ends (is_conflict e) (λ _. after_rollback _ (raise-Ends _ h)) λ _. raise-Ends _ h

  abbrev Paid : Order → Session → Type 0
  Paid r t = Moves payment.business_id payment.order_id pay actor written keyed r t

  pay-Ends :
      Ends Paid
        (λ e t. Held s t)
        (catch
          (do
            modify (set_payment changed)
            flush
            transition changed.business_id changed.order_id pay actor)
          not_paid)
        s
  pay-Ends =
      catch-Ends {D = λ e t. Held s t} _ _
        (after_modify _ _ (
          after_flush _ (λ _ _. (refl, refl))
            λ _.
              weaken-Ends
                (transition-Ends payment.business_id payment.order_id pay actor written keyed)
                (λ e t h. h.0)))
        not_paid-Ends

  pub succeed-Ends : Ends Settles (λ e t. Held s t) (succeed payment provider_payment_id actor) s
  unfolding succeed now
  succeed-Ends = after_known now _ refl (
      bind-Ends _ _ pay-Ends λ r t m.
        after_reload _ _ changed
          (ap (λ rows. first (select (λ (q : Payment). q.id == changed.id) rows)) m.payments
            ∙ first-select-assign (λ (q : Payment). q.id) p payment changed s.work.payments [] refl
                there)
          _
          (after_publish _ _ (
            pure-Ends _ (record {
              result = refl;
              order = m.order;
              found =
                  select_of_one_or_none
                    (select (order_at_id payment.business_id payment.order_id) _) m.found;
              awaiting = (pay_rule m.order.status m.legal).0;
              committed = m.committed;
              admitted_after = m.admitted_after;
              payments = m.payments;
              orders =
                  m.orders
                  ∙ ap (λ o. assign (λ (o : Order). o.id) o s.work.orders)
                      (m.result
                        ∙ ap (λ (rule : Transition). record m.order { status = rule.to })
                            (sym (pay_rule m.order.status m.legal).1));
            }))))
