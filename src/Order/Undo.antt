-- ===== src/Order/Undo.antt =====
-- What confirming and cancelling an order in app/order/service.py do to the stock, together.
use vyapar_ai.Prelude.{ℕ, ◌≡◌, sym, ap, ◌∙◌, Option, [], ◌∷◌, ◌==◌}
use vyapar_ai.Prelude.Int.{◌+ℤ◌}
use vyapar_ai.Common.Result.{ok}
use vyapar_ai.Models.Rows.{select, order_by}
use vyapar_ai.Models.Order.{
  Order, OrderItem, OrderStatus, InventoryEffect, Transition, transitions, confirm, cancel,
}
use vyapar_ai.Database.Tables.{Tables}
use vyapar_ai.Database.Session.{Env, Session}
use vyapar_ai.Inventory.Balance.{stock_of, IsKeyed}
use vyapar_ai.Order.{transition}
use vyapar_ai.Order.Repository.{at_id, items_of}
use vyapar_ai.Order.Transition.{Moves}
use vyapar_ai.Order.Effects.{demand, confirm_rule, cancel_rule, undo, taken, restored}
use vyapar_ai.Order.Outcome.{head_eq, transition-ok, Moves-found, Moves-row, Moves-stock_of}

module _ ⦃env : Env⦄ (business_id order_id : ℕ) (actor : Option ℕ) (s : Session)
    (clean : s.work ≡ s.committed) (keyed : IsKeyed s.committed) where
  -- An order that is confirmed was a created one, and the committed stock of every product of every
  -- business has lost what the lines of the order ask for of it.
  -- The session has no pending writes before, and no two inventory rows have one primary key.
  pub confirm-stock_of :
      {r : Order}
      → (transition business_id order_id confirm actor s).0 ≡ ok r
      → (r.status ≡ OrderStatus.confirmed)
        × ((b q : ℕ)
            → stock_of b q (transition business_id order_id confirm actor s).1.committed
                +ℤ demand business_id b q (items_of r s.committed)
              ≡ stock_of b q s.committed)
  confirm-stock_of {r} h =
      let t = (transition business_id order_id confirm actor s).1 in
      let m : Moves business_id order_id confirm actor s (rw clean keyed) r t =
        transition-ok business_id order_id confirm actor s clean keyed h in
      let rule : record { to = OrderStatus.confirmed; effect = InventoryEffect.decrement }
          ≡ m.rule =
        confirm_rule m.order.status m.legal in
      (
        ap (λ (o : Order). o.status) m.result ∙ ap (λ (x : Transition). x.to) (sym rule),
        λ b q.
            undo (stock_of b q s.committed) _ _ (stock_of b q t.committed)
              (taken business_id b q (items_of r s.committed))
              (Moves-stock_of business_id order_id confirm actor s clean keyed m rule b q),
      )

  -- The cancellation of a confirmed order gives every product back what the lines of the order ask
  -- for of it.
  -- The order is the one row of the business under the id and is confirmed; the session has no
  -- pending writes before, and no two inventory rows have one primary key.
  pub cancel-stock_of :
      {order r : Order}
      → select (at_id business_id order_id) s.committed.orders ≡ order ∷ []
      → order.status ≡ OrderStatus.confirmed
      → (transition business_id order_id cancel actor s).0 ≡ ok r
      → (r.status ≡ OrderStatus.cancelled)
        × ((b q : ℕ)
            → stock_of b q (transition business_id order_id cancel actor s).1.committed
              ≡ stock_of b q s.committed +ℤ demand business_id b q (items_of r s.committed))
  cancel-stock_of {order} {r} found status h =
      let t = (transition business_id order_id cancel actor s).1 in
      let m : Moves business_id order_id cancel actor s (rw clean keyed) r t =
        transition-ok business_id order_id cancel actor s clean keyed h in
      let same : order ≡ m.order =
        head_eq (sym found ∙ Moves-found business_id order_id cancel actor s clean keyed m) in
      let rule : record { to = OrderStatus.cancelled; effect = InventoryEffect.restore } ≡ m.rule =
        cancel_rule (
          ap (λ st. transitions st cancel) (sym status ∙ ap (λ (o : Order). o.status) same)
          ∙ m.legal) in
      (
        ap (λ (o : Order). o.status) m.result ∙ ap (λ (x : Transition). x.to) (sym rule),
        λ b q.
            Moves-stock_of business_id order_id cancel actor s clean keyed m rule b q
            ∙ ap (λ x. stock_of b q s.committed +ℤ x)
                (restored business_id b q (items_of r s.committed)),
      )

module _ ⦃env : Env⦄ (business_id order_id : ℕ) (actor : Option ℕ) (s : Session)
    (clean : s.work ≡ s.committed) (keyed : IsKeyed s.committed) where
  -- A confirmation that is cancelled leaves the committed stock of every product as it was before.
  -- The session has no pending writes before, and no two inventory rows have one primary key.
  pub confirm-cancel :
      {r r' : Order}
      → (transition business_id order_id confirm actor s).0 ≡ ok r
      → (transition business_id order_id cancel actor
          (transition business_id order_id confirm actor s).1).0
        ≡ ok r'
      → (b q : ℕ)
      → stock_of b q
          (transition business_id order_id cancel actor
            (transition business_id order_id confirm actor s).1).1.committed
        ≡ stock_of b q s.committed
  unfolding items_of
  confirm-cancel {r} {r'} h k b q =
      let t = (transition business_id order_id confirm actor s).1 in
      let m : Moves business_id order_id confirm actor s (rw clean keyed) r t =
        transition-ok business_id order_id confirm actor s clean keyed h in
      let back : t.work ≡ t.committed = sym m.committed in
      let keys : IsKeyed t.committed = rw (m.committed) (m.keyed_after) in
      let n : Moves business_id order_id cancel actor t (rw back keys) r' _ =
        transition-ok business_id order_id cancel actor t back keys k in
      let row : n.order ≡ r =
        Moves-row business_id order_id confirm actor s clean keyed m
          (Moves-found business_id order_id cancel actor t back keys n) in
      let c = confirm-stock_of business_id order_id actor s clean keyed h in
      let lines : items_of r' t.committed ≡ items_of r s.committed =
        ap (λ (o : Order). items_of o t.committed) (n.result)
        ∙ ap (λ (o : Order). items_of o t.committed) row
        ∙ ap (λ (w : Tables). items_of r w) m.committed
        ∙ ap
            (λ rows.
              order_by (λ (i : OrderItem). i.id)
                (select (λ (i : OrderItem). i.order_id == r.id) rows))
            m.order_items
        ∙ ap (λ (w : Tables). items_of r w) clean in
      (cancel-stock_of business_id order_id actor t back keys {order = r} {r = r'}
          (Moves-found business_id order_id cancel actor t back keys n ∙ ap (λ o. o ∷ []) row) c.0
          k).1
        b q
      ∙ ap (λ ls. stock_of b q t.committed +ℤ demand business_id b q ls) lines
      ∙ c.1 b q
