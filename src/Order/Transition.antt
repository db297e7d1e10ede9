-- ===== src/Order/Transition.antt =====
-- What `OrderService.transition` of app/order/service.py does, on every branch.
use mathlib.Core.List.{append-nil, append_assoc}
use vyapar_ai.Prelude.{
  ◌⊎◌, inl, inr, ℕ, ◌≡◌, refl, sym, ap, ◌∙◌, Bool, true, Option, some, List, [], ◌∷◌, ◌++◌, map,
  ◌==◌,
}
use vyapar_ai.Prelude.Int.{◌+ℤ◌}
use vyapar_ai.Common.Event.{LowStock, DomainEvent, low_stock, order_confirmed, order_cancelled}
use vyapar_ai.Common.Result.{ok}
use vyapar_ai.Models.Rows.{select, one_or_none, first, assign}
use vyapar_ai.Models.Rows.Assign.{first-select-assign, select_of_one_or_none}
use vyapar_ai.Models.Order.{Order, OrderStatus, OrderEvent, Transition, transitions}
use vyapar_ai.Database.Tables.{admitted}
use vyapar_ai.Database.Session.{
  Env, Session, pure, publish, or_rollback, modify, commit, ◌>>=◌, ◌>>◌,
}
use vyapar_ai.Database.Ends.{Ends, Held, bind-Ends, pure-Ends, or_rollback-Ends, sent-admitted}
use vyapar_ai.Database.Steps.{
  after_find, after_or_raise, after_modify, after_commit, after_reload, after_known,
}
use vyapar_ai.Inventory.Balance.{stock_of, moved_of, IsKeyed}
use vyapar_ai.Order.{get_order, apply_effect, transition, publish_all, publish_lifecycle}
use vyapar_ai.Order.Repository.{at_id, get, items_of, refresh, set_order}
use vyapar_ai.Order.Applies.{effect_change, apply_effect-Ends}

-- The events of a new status.
abbrev pub lifecycle_events : Order → OrderStatus → List DomainEvent
lifecycle_events order OrderStatus.confirmed =
    order_confirmed order.business_id order.id order.customer_id ∷ []
lifecycle_events order OrderStatus.cancelled =
    order_cancelled order.business_id order.id order.customer_id ∷ []
lifecycle_events order _ = []

abbrev publishing : Session → List DomainEvent → Session
publishing s events = record s { published = s.published ++ events }

publish_none : (s : Session) → s ≡ publishing s []
publish_none s =
    ap (λ (p : List DomainEvent). record s { published = p }) (sym (append-nil s.published))

publish_all_lem :
    (events : List LowStock) (s : Session)
    → publish_all events s ≡ (ok tt, publishing s (map low_stock events))
unfolding ◌>>=◌
publish_all_lem [] s = ap (λ t. (ok tt, t)) (publish_none s)
publish_all_lem (e ∷ events) s =
    publish_all_lem events (publishing s (low_stock e ∷ []))
    ∙ ap (λ (p : List DomainEvent). (ok tt, record s { published = p }))
        (append_assoc s.published (low_stock e ∷ []) (map low_stock events))

publish_lifecycle_lem :
    (order : Order) (status : OrderStatus) (s : Session)
    → publish_lifecycle order status s ≡ (ok tt, publishing s (lifecycle_events order status))
unfolding pure publish
publish_lifecycle_lem order OrderStatus.confirmed s = refl
publish_lifecycle_lem order OrderStatus.cancelled s = refl
publish_lifecycle_lem order _ s = ap (λ t. (ok tt, t)) (publish_none s)

-- The row that was written is read back.
reload_changed :
    (p : Order → Bool) (order : Order) (status : OrderStatus) (rows : List Order)
    → one_or_none (select p rows) ≡ ok (some order)
    → first (
        select
          (λ (q : Order). q.id == order.id)
          (assign (λ (q : Order). q.id) (record order { status = status }) rows))
      ≡ some (record order { status = status })
reload_changed p order status rows h =
    first-select-assign (λ (q : Order). q.id) p order (record order { status = status }) rows []
      refl (select_of_one_or_none (select p rows) h)

module _ ⦃env : Env⦄ (business_id order_id : ℕ) (event : OrderEvent) (actor : Option ℕ)
    (s : Session) (keyed : IsKeyed s.work) where
  -- What a transition that returns has done, from the order and the rule that it found.
  pub record Moves (r : Order) (t : Session) : Type 0 where
    pub order : Order
    pub rule : Transition
    pub pending : List LowStock
    pub found : one_or_none (select (at_id business_id order_id) s.work.orders) ≡ ok (some order)
    pub legal : transitions order.status event ≡ some rule
    pub result : r ≡ record order { status = rule.to }
    pub committed : t.committed ≡ t.work
    pub keyed_after : IsKeyed t.work
    pub admitted_after : admitted t.work ≡ true
    pub orders : t.work.orders ≡ assign (λ (o : Order). o.id) r s.work.orders
    pub payments : t.work.payments ≡ s.work.payments
    pub order_items : t.work.order_items ≡ s.work.order_items
    pub stock :
        (b q : ℕ)
        → stock_of b q t.work
          ≡ stock_of b q s.work +ℤ effect_change rule.effect business_id b q (items_of order s.work)
    pub moved :
        (b q : ℕ)
        → moved_of b q t.work
          ≡ moved_of b q s.work +ℤ effect_change rule.effect business_id b q (items_of order s.work)
    pub published : t.published ≡ s.published ++ map low_stock pending ++ lifecycle_events r rule.to

  -- A transition that raises has committed and published nothing, and leaves no writes behind that
  -- were not there before.
  abbrev pub Refused : Session → Type 0
  Refused t = Held s t × ((t.work ≡ s.work) ⊎ (t.work ≡ s.committed))

  -- The transaction of `transition`, before the row is read back and the events are published.
  record Saved (order : Order) (rule : Transition) (t : Session) : Type 0 where
    committed : t.committed ≡ t.work
    published : t.published ≡ s.published
    keyed_after : IsKeyed t.work
    orders :
        t.work.orders
        ≡ assign (λ (o : Order). o.id) (record order { status = rule.to }) s.work.orders
    payments : t.work.payments ≡ s.work.payments
    order_items : t.work.order_items ≡ s.work.order_items
    admitted_after : admitted t.work ≡ true
    stock :
        (b q : ℕ)
        → stock_of b q t.work
          ≡ stock_of b q s.work +ℤ effect_change rule.effect business_id b q (items_of order s.work)
    moved :
        (b q : ℕ)
        → moved_of b q t.work
          ≡ moved_of b q s.work +ℤ effect_change rule.effect business_id b q (items_of order s.work)

  save-Ends :
      (order : Order) (rule : Transition)
      → Ends
          (λ _ t. Saved order rule t)
          (λ e t. Refused t)
          (or_rollback (do
            pending ← apply_effect rule.effect business_id order actor
            modify (set_order (record order { status = rule.to }))
            commit
            pure pending))
          s
  unfolding stock_of moved_of
  save-Ends order rule =
      or_rollback-Ends s _
        (bind-Ends _ _ (apply_effect-Ends business_id actor s keyed rule.effect order)
          λ pending t a. after_modify _ _ (
            after_commit _ (λ _ _. a.held)
              λ none_raised. pure-Ends _ (record {
                committed = refl;
                published = a.held.1;
                keyed_after = a.keyed_after;
                orders =
                    ap (assign (λ (o : Order). o.id) (record order { status = rule.to })) a.orders;
                payments = a.payments;
                order_items = a.order_items;
                admitted_after =
                    sent-admitted
                      (record t { work = set_order (record order { status = rule.to }) t.work })
                      none_raised;
                stock = a.stock;
                moved = a.moved;
              })))
        (λ e t u. ((u.0, u.2), inr u.1))

  hand_out-Ends :
      (order : Order) (rule : Transition) (pending : List LowStock) (t : Session)
      → one_or_none (select (at_id business_id order_id) s.work.orders) ≡ ok (some order)
      → transitions order.status event ≡ some rule
      → Saved order rule t
      → Ends Moves
          (λ e t. Refused t)
          (do
            refreshed ← refresh (record order { status = rule.to })
            publish_all pending
            publish_lifecycle refreshed rule.to
            pure refreshed)
          t
  hand_out-Ends order rule pending t found legal saved =
      let changed = record order { status = rule.to } in
      after_reload _ _ changed there _ (
        after_known _ _ (publish_all_lem pending t) (
          after_known _ _ (publish_lifecycle_lem changed rule.to _) (
            pure-Ends _ (record {
              order = order;
              rule = rule;
              pending = pending;
              found = found;
              legal = legal;
              result = refl;
              committed = saved.committed;
              keyed_after = saved.keyed_after;
              orders = saved.orders;
              payments = saved.payments;
              order_items = saved.order_items;
              admitted_after = saved.admitted_after;
              stock = saved.stock;
              moved = saved.moved;
              published =
                  ap (λ p. p ++ map low_stock pending ++ lifecycle_events changed rule.to)
                    saved.published;
            }))))
    where
      there :
          first (select (λ (q : Order). q.id == order.id) t.work.orders)
          ≡ some (record order { status = rule.to })
      there =
          rw (saved.orders)
            (reload_changed (at_id business_id order_id) order rule.to s.work.orders found)

  pub transition-Ends :
      Ends Moves (λ e t. Refused t) (transition business_id order_id event actor) s
  unfolding transition get_order get
  transition-Ends =
      after_find _ _ _ (λ e. ((refl, refl), inl refl))
        λ order found.
          after_or_raise _ _ _ (λ _. ((refl, refl), inl refl))
            λ rule legal.
              bind-Ends _ _ (save-Ends order rule)
                λ pending t saved. hand_out-Ends order rule pending t found legal saved
