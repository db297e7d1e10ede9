-- ===== src/Inventory/Stock.antt =====
-- What the adjustments of app/inventory/service.py leave behind, call by call.
use mathlib.Core.List.{append-nil}
use mathlib.Core.Path.{subst}
use vyapar_ai.Prelude.{
  ℕ, ◌≡◌, refl, ap, Bool, false, Option, none, some, List, [], ◌∷◌, ◌++◌, arith, ◌==◌,
}
use vyapar_ai.Prelude.Int.{ℤ, pos, ◌+ℤ◌, ◌≤ℤ◌, ltb_ℤ}
use vyapar_ai.Common.Error.{Error}
use vyapar_ai.Common.Event.{LowStock, DomainEvent, low_stock}
use vyapar_ai.Common.Result.{ok, err}
use vyapar_ai.Models.Rows.{select, one_or_none, first, assign}
use vyapar_ai.Models.Rows.Assign.{first-select-assign, select_of_one_or_none}
use vyapar_ai.Models.Inventory.{Inventory, StockMovement, MovementType}
use vyapar_ai.Database.Tables.{Tables}
use vyapar_ai.Database.Session.{Env, Session, Exec, ◌>>=◌, ◌>>◌, pure, fresh, flush}
use vyapar_ai.Database.Ends.{
  Ends, Ends-ok, Ends-err, Held, Unchanged, bind-Ends, pure-Ends, or_rollback-Ends,
}
use vyapar_ai.Database.Steps.{
  after_raise_if, after_publish, after_reload, after_query, after_or_raise, after_pure,
  after_commit,
}
use vyapar_ai.Inventory.Repository.{
  at_id, at_product, lock_for_update_by_product, add_movement, lock_for_update, set_inventory,
  insert_movement, refresh,
}
use vyapar_ai.Inventory.{
  stage_adjustment, write_stock, adjust_stock, pending_event, publish_pending,
}

-- The row of an adjusted inventory, and the movement that records the adjustment.
abbrev pub adjusted : Inventory → ℤ → Inventory
adjusted inv delta = record inv { quantity = inv.quantity +ℤ delta }

abbrev pub movement_of : ℕ → ℕ → Inventory → ℤ → MovementType → Option ℕ → StockMovement
movement_of id business_id inv delta movement_type actor_user_id = record {
  id = id;
  business_id = business_id;
  inventory_id = inv.id;
  product_id = inv.product_id;
  delta = delta;
  resulting_quantity = inv.quantity +ℤ delta;
  movement_type = movement_type;
  actor_user_id = actor_user_id;
}

-- The events that a pending one becomes.
abbrev pub events_of : Option LowStock → List DomainEvent
events_of none = []
events_of (some e) = low_stock e ∷ []

nonneg_of_test : (a : ℤ) → ltb_ℤ a (pos 0) ≡ false → pos 0 ≤ℤ a
nonneg_of_test a h = ground arith

module _ {B : Type 0} {Q : B → Session → Type 0} {E : Error → Session → Type 0} where
  pub after_publish_pending :
      (p : Option LowStock) (f : Unit {0} → Exec B) {s : Session}
      → Ends Q E (f tt) (record s { published = s.published ++ events_of p })
      → Ends Q E (publish_pending p >>= f) s
  after_publish_pending none f {s = s} k =
      after_pure tt f
        (subst (λ p. Ends Q E (f tt) (record s { published = p })) (append-nil s.published) k)
  after_publish_pending (some e) f k = after_publish (low_stock e) f k

module _ ⦃env : Env⦄ (business_id : ℕ) (delta : ℤ) (kind : MovementType) (actor : Option ℕ) where
  -- The tables after an adjustment of the row `inv`.
  abbrev pub stocked : Inventory → Session → Tables
  stocked inv s =
      insert_movement (movement_of (env.next_id s.calls) business_id inv delta kind actor)
        (set_inventory (adjusted inv delta) s.work)

  -- What a change of the locked row `inv` has done: nothing is committed or published by it.
  abbrev pub Wrote : Inventory → Session → Inventory → Session → Type 0
  Wrote inv s r t =
      (r ≡ adjusted inv delta)
      × (pos 0 ≤ℤ inv.quantity +ℤ delta)
      × (t.work ≡ stocked inv s)
      × Held s t

  pub write_stock-Ends :
      (inv : Inventory) (s : Session)
      → Ends (Wrote inv s) (λ e t. Held s t) (write_stock business_id inv delta kind actor) s
  unfolding write_stock add_movement flush fresh ◌>>=◌
  write_stock-Ends inv s = record { at = ground arith }

-- The row that was written is read back.
reload_adjusted :
    (p : Inventory → Bool) (inv : Inventory) (delta : ℤ) (rows : List Inventory)
    → one_or_none (select p rows) ≡ ok (some inv)
    → first (
        select
          (λ (q : Inventory). q.id == inv.id)
          (assign (λ (q : Inventory). q.id) (adjusted inv delta) rows))
      ≡ some (adjusted inv delta)
reload_adjusted p inv delta rows h =
    first-select-assign (λ (q : Inventory). q.id) p inv (adjusted inv delta) rows [] refl
      (select_of_one_or_none (select p rows) h)

module _ ⦃env : Env⦄ (business_id inventory_id : ℕ) (delta : ℤ) (kind : MovementType)
    (actor : Option ℕ) (s : Session) where
  -- What an adjustment that returns has done, from the row `inv` that it locked.
  pub record Adjusts (r : Inventory) (t : Session) : Type 0 where
    pub inv : Inventory
    pub found : select (at_id business_id inventory_id) s.work.inventories ≡ inv ∷ []
    pub result : r ≡ adjusted inv delta
    pub enough : pos 0 ≤ℤ inv.quantity +ℤ delta
    pub work : t.work ≡ stocked business_id delta kind actor inv s
    pub committed : t.committed ≡ t.work
    pub published :
        t.published ≡ s.published ++ events_of (pending_event business_id inv.product_id r)

  -- The transaction of `adjust_stock`, before the row is read back and the event is published.
  record Commits (r : Inventory) (t : Session) : Type 0 where
    inv : Inventory
    found : one_or_none (select (at_id business_id inventory_id) s.work.inventories) ≡ ok (some inv)
    result : r ≡ adjusted inv delta
    enough : pos 0 ≤ℤ inv.quantity +ℤ delta
    work : t.work ≡ stocked business_id delta kind actor inv s
    committed : t.committed ≡ t.work
    published : t.published ≡ s.published

  refresh-publish-Ends :
      (r : Inventory) (t : Session)
      → Commits r t
      → Ends Adjusts
          (λ e t. Unchanged s t)
          (do
            refreshed ← refresh r
            publish_pending (pending_event business_id r.product_id r)
            pure refreshed)
          t
  refresh-publish-Ends r t c = after_reload _ _ r there _ (
      after_publish_pending (pending_event business_id r.product_id r) _ (
        pure-Ends _ (record {
          inv = c.inv;
          found = select_of_one_or_none (select (at_id business_id inventory_id) _) c.found;
          result = c.result;
          enough = c.enough;
          work = c.work;
          committed = c.committed;
          published = rw (c.published, c.result) refl;
        })))
    where
      there : first (select (λ (q : Inventory). q.id == r.id) t.work.inventories) ≡ some r
      there =
          rw (c.result, c.work)
            (reload_adjusted (at_id business_id inventory_id) c.inv delta s.work.inventories
              c.found)

  pub adjust_stock-Ends :
      s.work ≡ s.committed
      → Ends Adjusts
          (λ e t. Unchanged s t)
          (adjust_stock business_id inventory_id delta kind actor)
          s
  unfolding adjust_stock lock_for_update
  adjust_stock-Ends clean =
      after_raise_if _ _ _ (λ _. (refl, clean, refl))
        λ _.
          bind-Ends {P = Commits} _ _
            (or_rollback-Ends s _
              (after_query _ _ (λ e _. (refl, refl))
                λ o found.
                  after_or_raise _ _ _ (λ _. (refl, refl))
                    λ inv e.
                      bind-Ends _ _ (write_stock-Ends business_id delta kind actor inv s) λ r t w.
                        after_commit _ (λ _ _. w.3)
                          λ _. pure-Ends _ (record {
                            inv = inv;
                            found = rw found (ap ok e);
                            result = w.0;
                            enough = w.1;
                            work = w.2;
                            committed = refl;
                            published = w.3.1;
                          }))
              (λ e t u. u))
            refresh-publish-Ends

  -- An adjustment that raises has changed nothing: no row, no movement, no event.
  -- The session has no pending writes before.
  pub adjust_stock-err :
      {e : Error}
      → s.work ≡ s.committed
      → (adjust_stock business_id inventory_id delta kind actor s).0 ≡ err e
      → Unchanged s (adjust_stock business_id inventory_id delta kind actor s).1
  adjust_stock-err clean h = Ends-err (adjust_stock-Ends clean) h

  pub adjust_stock-ok :
      {r : Inventory}
      → s.work ≡ s.committed
      → (adjust_stock business_id inventory_id delta kind actor s).0 ≡ ok r
      → Adjusts r (adjust_stock business_id inventory_id delta kind actor s).1
  adjust_stock-ok clean h = Ends-ok (adjust_stock-Ends clean) h

module _ ⦃env : Env⦄ (business_id product_id : ℕ) (delta : ℤ) (kind : MovementType)
    (actor : Option ℕ) (s : Session) where
  -- What a staged adjustment has done, from the row `inv` that it locked: nothing is committed.
  pub record Stages (pending : Option LowStock) (t : Session) : Type 0 where
    pub inv : Inventory
    pub found : select (at_product business_id product_id) s.work.inventories ≡ inv ∷ []
    pub enough : pos 0 ≤ℤ inv.quantity +ℤ delta
    pub work : t.work ≡ stocked business_id delta kind actor inv s
    pub pending_lem : pending ≡ pending_event business_id product_id (adjusted inv delta)
    pub held : Held s t

  pub stage_adjustment-Ends :
      Ends Stages (λ e t. Held s t) (stage_adjustment business_id product_id delta kind actor) s
  unfolding stage_adjustment lock_for_update_by_product
  stage_adjustment-Ends =
      after_raise_if _ _ _ (λ _. (refl, refl))
        λ _.
          after_query _ _ (λ e _. (refl, refl))
            λ o found.
              after_or_raise _ _ _ (λ _. (refl, refl))
                λ inv e.
                  bind-Ends _ _ (write_stock-Ends business_id delta kind actor inv s) λ r t w.
                    pure-Ends _ (record {
                      inv = inv;
                      found =
                          select_of_one_or_none
                            (select (at_product business_id product_id) s.work.inventories)
                            (rw found (ap ok e));
                      enough = w.1;
                      work = w.2;
                      pending_lem = rw (w.0) refl;
                      held = w.3;
                    })
