-- ===== src/Order/Stock.antt =====
-- The stock that app/order/service.py takes for the lines of an order, and gives back.
use vyapar_ai.Prelude.{ℕ, ◌≡◌, refl, ap, ◌∙◌, Option, List, [], ◌∷◌, ◌==◌, if◌then◌else◌}
use vyapar_ai.Prelude.Int.{ℤ, pos, ◌+ℤ◌, ◌*ℤ◌, +ℤ_assoc, int_laws}
use vyapar_ai.Common.Event.{LowStock}
use vyapar_ai.Models.Order.{OrderItem}
use vyapar_ai.Database.Tables.{Tables}
use vyapar_ai.Database.Session.{Env, Session}
use vyapar_ai.Database.Ends.{Ends, Held, bind-Ends, pure-Ends, weaken-Ends}
use vyapar_ai.Inventory.Stock.{Stages, stage_adjustment-Ends}
use vyapar_ai.Inventory.Balance.{stock_of, moved_of, IsKeyed, at_same}
use vyapar_ai.Inventory.Ledger.{Stages-stock_of, Stages-moved_of, Stages-IsKeyed}
use vyapar_ai.Order.{movement_for, stage_items}

-- What the lines of an order ask for of a product.
unfoldable pub ordered : ℕ → List OrderItem → ℤ
ordered q [] = pos 0
ordered q (item ∷ items) =
    (if item.product_id == q then item.quantity else pos 0) +ℤ ordered q items

-- The change of the stock of product `q` of business `b` by the lines of an order of `business_id`.
unfoldable pub change : ℤ → ℕ → ℕ → ℕ → List OrderItem → ℤ
change sign business_id b q [] = pos 0
change sign business_id b q (item ∷ items) =
    at_same b q business_id item.product_id (sign *ℤ item.quantity)
    +ℤ change sign business_id b q items

then_sum : (x y z a b : ℤ) → y ≡ x +ℤ a → z ≡ y +ℤ b → z ≡ x +ℤ (a +ℤ b)
then_sum x y z a b h k = k ∙ ap (λ w. w +ℤ b) h ∙ +ℤ_assoc x a b

module _ ⦃env : Env⦄ (business_id : ℕ) (sign : ℤ) (actor : Option ℕ) where
  -- What staging the lines `items` has done: nothing is committed, and the stock and the movements
  -- of every product have changed alike.
  pub record StagesAll (items : List OrderItem) (s t : Session) : Type 0 where
    pub held : Held s t
    pub keyed : IsKeyed t.work
    pub orders : t.work.orders ≡ s.work.orders
    pub payments : t.work.payments ≡ s.work.payments
    pub order_items : t.work.order_items ≡ s.work.order_items
    pub stock :
        (b q : ℕ) → stock_of b q t.work ≡ stock_of b q s.work +ℤ change sign business_id b q items
    pub moved :
        (b q : ℕ) → moved_of b q t.work ≡ moved_of b q s.work +ℤ change sign business_id b q items

  StagesAll-nil : (s : Session) → IsKeyed s.work → StagesAll [] s s
  unfolding change
  StagesAll-nil s k = record {
    held = (refl, refl);
    keyed = k;
    orders = refl;
    payments = refl;
    order_items = refl;
    stock = λ b q. omega int_laws;
    moved = λ b q. omega int_laws;
  }

  StagesAll-cons :
      (item : OrderItem) (items : List OrderItem) (s t u : Session) {p : Option LowStock}
      → IsKeyed s.work
      → Stages business_id item.product_id (sign *ℤ item.quantity) (movement_for sign) actor s p t
      → StagesAll items t u
      → StagesAll (item ∷ items) s u
  unfolding change
  StagesAll-cons item items s t u k g all = record {
    held = (all.held.0 ∙ g.held.0, all.held.1 ∙ g.held.1);
    keyed = all.keyed;
    orders = all.orders ∙ ap (λ (w : Tables). w.orders) g.work;
    payments = all.payments ∙ ap (λ (w : Tables). w.payments) g.work;
    order_items = all.order_items ∙ ap (λ (w : Tables). w.order_items) g.work;
    stock = λ b q. then_sum (stock_of b q s.work) _ _ _ _ (Stages-stock_of k g b q) (all.stock b q);
    moved = λ b q. then_sum (moved_of b q s.work) _ _ _ _ (Stages-moved_of k g b q) (all.moved b q);
  }

  pub stage_items-Ends :
      (items : List OrderItem) (s : Session)
      → IsKeyed s.work
      → Ends
          (λ _ t. StagesAll items s t)
          (λ e t. Held s t)
          (stage_items business_id sign actor items)
          s
  unfolding stage_items
  stage_items-Ends [] s k = pure-Ends _ (StagesAll-nil s k)
  stage_items-Ends (item ∷ items) s k =
      bind-Ends _ _
        (stage_adjustment-Ends business_id item.product_id (sign *ℤ item.quantity)
          (movement_for sign) actor s)
        λ p t g.
          bind-Ends _ _
            (weaken-Ends (stage_items-Ends items t (Stages-IsKeyed k g))
              (λ e u h. (h.0 ∙ g.held.0, h.1 ∙ g.held.1)))
            λ events u all. pure-Ends _ (StagesAll-cons item items s t u k g all)
