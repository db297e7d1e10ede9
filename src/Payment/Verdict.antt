-- ===== src/Payment/Verdict.antt =====
-- What app/payment/service.py makes of the facts of the gateway: `_fail`, the branch of a pending
-- payment, and the comparison with the payment.
use vyapar_ai.Prelude.{
  ℕ, String, ◌≡◌, refl, ap, ◌∙◌, Bool, true, false, not, Option, some, [], ◌∷◌, ◌++◌, ◌==◌, ◌⊎◌,
  inl, inr, arith, str_eq,
}
use vyapar_ai.Common.Error.{Error, payment_mismatch_error}
use vyapar_ai.Common.Event.{payment_failed}
use vyapar_ai.Common.Decimal
use vyapar_ai.Models.Rows.{select, first, assign}
use vyapar_ai.Models.Rows.Assign.{first-select-assign}
use vyapar_ai.Models.Payment.{Payment, PaymentStatus}
use vyapar_ai.Database.Tables.{Tables}
use vyapar_ai.Database.Session.{Env, Session, or_rollback, commit}
use vyapar_ai.Database.Ends.{
  Ends, Held, bind-Ends, raise-Ends, or_rollback-Ends, weaken-Ends, map-Ends, if-Ends, commit-Ends,
}
use vyapar_ai.Database.Steps.{after_modify, after_reload, after_publish, reload-Ends}
use vyapar_ai.Inventory.Balance.{IsKeyed}
use vyapar_ai.Payment.{or_empty}
use vyapar_ai.Payment.Provider.{ProviderVerification, ProviderPaymentStatus}
use vyapar_ai.Payment.Repository.{set_payment}
use vyapar_ai.Payment.Settlement.{failed_with, fail, hold, match_facts, judge}
use vyapar_ai.Payment.Settles.{Settles, succeed-Ends}

-- The facts of the gateway are those of the payment.
abbrev pub Matches : Payment → ProviderVerification → Type 0
Matches payment v =
    (v.status ≡ ProviderPaymentStatus.success)
    × (str_eq v.provider_order_id (or_empty payment.provider_order_id) ≡ true)
    × (Decimal.eq v.amount payment.amount ≡ true)
    × (str_eq v.currency payment.currency ≡ true)

true_of_not : (b : Bool) → not b ≡ false → b ≡ true
true_of_not b h = ground arith

module _ ⦃env : Env⦄ (payment : Payment) (s : Session) (keyed : IsKeyed s.work) (p : Payment → Bool)
    (there : select p s.work.payments ≡ payment ∷ []) where
  -- The payment has failed, which is committed and told to the bus before it is raised.
  pub record Fails (e : Error) (t : Session) : Type 0 where
    pub code : String
    pub reason : String
    pub error : e ≡ payment_mismatch_error reason
    pub committed : t.committed ≡ set_payment (failed_with payment code reason) s.work
    pub published :
        t.published
        ≡ s.published ++ payment_failed payment.business_id payment.order_id payment.id code ∷ []

  abbrev pub Lost : Error → Session → Type 0
  Lost e t = Held s t ⊎ Fails e t

  -- The payment waits for the gateway.
  pub record Holds (r : Payment) (t : Session) : Type 0 where
    pub result : r ≡ record payment { status = PaymentStatus.pending }
    pub committed : t.committed ≡ set_payment r s.work
    pub published : t.published ≡ s.published

  written_there :
      (changed : Payment)
      → changed.id ≡ payment.id
      → first (
          select
            (λ (q : Payment). q.id == changed.id)
            (assign (λ (q : Payment). q.id) changed s.work.payments))
        ≡ some changed
  written_there changed e =
      first-select-assign (λ (q : Payment). q.id) p payment changed s.work.payments [] e there

  abbrev Stored : Payment → Session → Type 0
  Stored changed t =
      (t.committed ≡ set_payment changed s.work)
      × (t.work ≡ set_payment changed s.work)
      × (t.published ≡ s.published)

  store-Ends :
      (changed : Payment)
      → Ends
          (λ _ t. Stored changed t)
          (λ e t. Held s t)
          (or_rollback commit)
          (record s { work = set_payment changed s.work })
  store-Ends changed =
      or_rollback-Ends s _ (commit-Ends (λ e. (refl, refl)) (refl, refl, refl))
        (λ e t u. (u.0, u.2))

  fail-Ends :
      {Q : Payment → Session → Type 0} (code reason : String)
      → Ends Q Lost (fail payment code reason) s
  unfolding fail
  fail-Ends code reason =
      let changed = failed_with payment code reason in
      after_modify _ _ (
        bind-Ends _ _ (weaken-Ends (store-Ends changed) (λ e t h. inl h)) λ _ t h.
          after_reload _ _ changed
            (ap (λ (w : Tables). first (select (λ (q : Payment). q.id == changed.id) w.payments))
                (h.1)
              ∙ written_there changed refl)
            _
            (after_publish _ _ (
              raise-Ends _ (
                inr (record {
                  code = code;
                  reason = reason;
                  error = refl;
                  committed = h.0;
                  published =
                      ap
                        (λ l.
                          l
                          ++ payment_failed payment.business_id payment.order_id payment.id code
                            ∷ [])
                        h.2;
                })))))

  hold-Ends : Ends Holds Lost (hold payment) s
  unfolding hold
  hold-Ends =
      let changed = record payment { status = PaymentStatus.pending } in
      after_modify _ _ (
        bind-Ends _ _ (weaken-Ends (store-Ends changed) (λ e t h. inl h)) λ _ t h.
          reload-Ends _ _ changed
            (ap (λ (w : Tables). first (select (λ (q : Payment). q.id == changed.id) w.payments))
                (h.1)
              ∙ written_there changed refl)
            (record { result = refl; committed = h.0; published = h.2 }))

  -- What is returned for facts `v`: a payment that waits, or one that is settled.
  abbrev pub Judged : ProviderVerification → Option ℕ → Payment → Session → Type 0
  Judged v actor r t =
      ((v.status ≡ ProviderPaymentStatus.pending) × Holds r t)
      ⊎ (Matches payment v × Settles payment (some v.provider_payment_id) actor s keyed p there r t)

  matched-Ends :
      (v : ProviderVerification) (actor : Option ℕ)
      → v.status ≡ ProviderPaymentStatus.success
      → Ends (Judged v actor) Lost (match_facts payment v actor) s
  unfolding match_facts
  matched-Ends v actor e =
      if-Ends _ (λ _. fail-Ends _ _)
        λ a.
          if-Ends _ (λ _. fail-Ends _ _)
            λ b.
              if-Ends _ (λ _. fail-Ends _ _)
                λ c.
                  weaken-Ends
                    (map-Ends
                      (succeed-Ends payment (some v.provider_payment_id) actor s keyed p there)
                      (λ r t h. inr ((e, true_of_not _ a, true_of_not _ b, true_of_not _ c), h)))
                    (λ e t h. inl h)

  pub judge-Ends :
      (v : ProviderVerification) (actor : Option ℕ)
      → Ends (Judged v actor) Lost (judge payment v actor) s
  unfolding judge
  judge-Ends v actor = go v.status refl
    where
      go :
          (status : ProviderPaymentStatus)
          → v.status ≡ status
          → Ends
              (Judged v actor)
              Lost
              (elim status [
                | ProviderPaymentStatus.pending ↦ hold payment
                | ProviderPaymentStatus.failed ↦
                    fail payment "provider_failed" "gateway reported a failed payment"
                | ProviderPaymentStatus.success ↦ match_facts payment v actor
              ])
              s
      go ProviderPaymentStatus.pending e = map-Ends hold-Ends (λ r t h. inl (e, h))
      go ProviderPaymentStatus.failed e = fail-Ends _ _
      go ProviderPaymentStatus.success e = matched-Ends v actor e
