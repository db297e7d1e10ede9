-- ===== src/Order/Outcome.antt =====
-- How `OrderService.transition` of app/order/service.py ends: its errors, its row and the stock.
use vyapar_ai.Prelude.{
  ℕ, ◌≡◌, refl, sym, ap, ◌∙◌, true, Option, some, List, [], ◌∷◌, arith, inl, inr,
}
use vyapar_ai.Prelude.Int.{◌+ℤ◌}
use vyapar_ai.Common.Error.{Error}
use vyapar_ai.Common.Result.{Result, ok, err}
use vyapar_ai.Models.Rows.{select, assign}
use vyapar_ai.Models.Order.{Order, OrderEvent, Transition, transitions}
use vyapar_ai.Database.Tables.{Tables}
use vyapar_ai.Database.Session.{Env, Session}
use vyapar_ai.Database.Ends.{Ends-ok, Ends-err, Unchanged}
use vyapar_ai.Inventory.Balance.{stock_of, moved_of, IsKeyed}
use vyapar_ai.Inventory.Ledger.{InStep, in_step}
use vyapar_ai.Order.{transition}
use vyapar_ai.Order.Repository.{at_id, items_of}
use vyapar_ai.Order.Applies.{effect_change}
use vyapar_ai.Order.Transition.{Moves, Refused, transition-Ends}
use vyapar_ai.Models.Rows.Assign.{select_of_one_or_none, select-holds, select-assign-head}

pub head_eq : {a b : Order} → a ∷ [] ≡ b ∷ [] → a ≡ b
head_eq h = cc

module _ ⦃env : Env⦄ (business_id order_id : ℕ) (event : OrderEvent) (actor : Option ℕ)
    (s : Session) (clean : s.work ≡ s.committed) (keyed : IsKeyed s.committed) where
  abbrev pub keyed_work : IsKeyed s.work
  keyed_work = rw clean keyed

  pub transition-ok :
      {r : Order}
      → (transition business_id order_id event actor s).0 ≡ ok r
      → Moves business_id order_id event actor s keyed_work r
          (transition business_id order_id event actor s).1
  transition-ok h = Ends-ok (transition-Ends business_id order_id event actor s keyed_work) h

  -- A transition that raises has changed nothing: no row of any table and no event.
  -- The session has no pending writes before, and no two inventory rows have one primary key.
  pub transition-err :
      {e : Error}
      → (transition business_id order_id event actor s).0 ≡ err e
      → Unchanged s (transition business_id order_id event actor s).1
  transition-err h =
      let refused : Refused business_id order_id event actor s keyed_work
          (transition business_id order_id event actor s).1 =
        Ends-err (transition-Ends business_id order_id event actor s keyed_work) h in
      (refused.0.0, elim (refused.1) [ inl e ↦ e ∙ clean | inr e ↦ e ], refused.0.1)

  pub Moves-found :
      {r : Order} {t : Session} (m : Moves business_id order_id event actor s keyed_work r t)
      → select (at_id business_id order_id) s.committed.orders ≡ m.order ∷ []
  Moves-found m =
      ap (λ (w : Tables). select (at_id business_id order_id) w.orders) (sym clean)
      ∙ select_of_one_or_none (select (at_id business_id order_id) s.work.orders) m.found

  -- A transition that returns has found one order of the business under the id, followed the rule
  -- that the table of transitions has for its status and the event, and committed the row it returns.
  -- The session has no pending writes before, and no two inventory rows have one primary key.
  pub transition-follows_table :
      {r : Order}
      → (transition business_id order_id event actor s).0 ≡ ok r
      → (order : Order) × (rule : Transition) × (select
            (at_id business_id order_id)
            s.committed.orders
          ≡ order ∷ [])
        × (transitions order.status event ≡ some rule)
        × (r ≡ record order { status = rule.to })
        × ((transition business_id order_id event actor s).1.committed.orders
            ≡ assign (λ (o : Order). o.id) r s.committed.orders)
  transition-follows_table {r} h =
      let m : Moves business_id order_id event actor s keyed_work r
          (transition business_id order_id event actor s).1 =
        transition-ok h in
      (
        m.order,
        m.rule,
        Moves-found m,
        m.legal,
        m.result,
        ap (λ (w : Tables). w.orders) m.committed
            ∙ m.orders
            ∙ ap (λ (w : Tables). assign (λ (o : Order). o.id) r w.orders) clean,
      )

  Moves-InStep :
      {r : Order} {t : Session}
      → Moves business_id order_id event actor s keyed_work r t
      → InStep s.committed t.committed
  Moves-InStep {t = t} m b q =
      in_step (stock_of b q s.committed) (moved_of b q s.committed) (stock_of b q t.committed)
        (moved_of b q t.committed)
        (effect_change m.rule.effect business_id b q (items_of m.order s.work))
        (ap (stock_of b q) m.committed
          ∙ m.stock b q
          ∙ ap
              (λ w.
                stock_of b q w
                +ℤ effect_change m.rule.effect business_id b q (items_of m.order s.work))
              clean)
        (ap (moved_of b q) m.committed
          ∙ m.moved b q
          ∙ ap
              (λ w.
                moved_of b q w
                +ℤ effect_change m.rule.effect business_id b q (items_of m.order s.work))
              clean)

  InStep-result :
      (x : Result Order × Session)
      → ((r : Order) → x.0 ≡ ok r → Moves business_id order_id event actor s keyed_work r x.1)
      → ((e : Error) → x.0 ≡ err e → Unchanged s x.1)
      → InStep s.committed x.1.committed
  InStep-result (ok r, t) h k = Moves-InStep (h r refl)
  InStep-result (err e, t) h k = λ b q. rw (k e refl).0 refl

  -- However a transition ends, the stock and the recorded movements of each product of each business
  -- have changed by the same amount.
  -- The session has no pending writes before, and no two inventory rows have one primary key.
  pub transition-InStep :
      InStep s.committed (transition business_id order_id event actor s).1.committed
  transition-InStep =
      InStep-result (transition business_id order_id event actor s) (λ r h. transition-ok h)
        (λ e h. transition-err h)

  -- The stock after a transition by the rule `rule`.
  pub Moves-stock_of :
      {r : Order} {t : Session} {rule : Transition}
      → (m : Moves business_id order_id event actor s keyed_work r t) → rule ≡ m.rule
      → (b q : ℕ)
      → stock_of b q t.committed
        ≡ stock_of b q s.committed
          +ℤ effect_change rule.effect business_id b q (items_of r s.committed)
  unfolding items_of
  Moves-stock_of {rule = rule} m e b q =
      ap (stock_of b q) m.committed
      ∙ m.stock b q
      ∙ ap (λ w. stock_of b q w +ℤ effect_change m.rule.effect business_id b q (items_of m.order w))
          clean
      ∙ ap
          (λ (x : Transition).
            stock_of b q s.committed
            +ℤ effect_change x.effect business_id b q (items_of m.order s.committed))
          (sym e)
      ∙ ap
          (λ (o : Order).
            stock_of b q s.committed
            +ℤ effect_change rule.effect business_id b q (items_of o s.committed))
          (sym m.result)

  id_of :
      (rows : List Order) {o : Order}
      → select (at_id business_id order_id) rows ≡ o ∷ []
      → o.id ≡ order_id
  id_of rows {o} h = id_of_test o (select-holds (at_id business_id order_id) rows {rest = []} h)
    where
      id_of_test : (o : Order) → at_id business_id order_id o ≡ true → o.id ≡ order_id
      id_of_test o e = ground arith

  -- What is found under the id of the order after a transition is the row that it returned.
  pub Moves-row :
      {r x : Order} {t : Session}
      → Moves business_id order_id event actor s keyed_work r t
      → select (at_id business_id order_id) t.committed.orders ≡ x ∷ []
      → x ≡ r
  Moves-row {r} {x} {t} m h =
      select-assign-head (λ (o : Order). o.id) (at_id business_id order_id) r s.work.orders
        {rest = []}
        (ap (select (at_id business_id order_id))
            (sym (ap (λ (w : Tables). w.orders) m.committed ∙ m.orders))
          ∙ h)
        (id_of t.committed.orders h
          ∙ sym (ap (λ (o : Order). o.id) m.result ∙ id_of s.committed.orders (Moves-found m)))
