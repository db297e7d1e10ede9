-- ===== src/Order/Effects.antt =====
-- What confirming and cancelling an order in app/order/service.py do to the stock.
use vyapar_ai.Prelude.{
  ℕ, Bool-cases, ◌&&◌, ◌≡◌, refl, ap, ◌∙◌, Bool, true, false, some, List, [], ◌∷◌, arith, ◌==◌,
  if◌then◌else◌, inl, inr,
}
use vyapar_ai.Prelude.Int.{ℤ, pos, negsuc, ◌+ℤ◌, ◌*ℤ◌, int_laws, parts_of_eq}
use vyapar_ai.Models.Order.{
  OrderItem, OrderStatus, InventoryEffect, Transition, transitions, confirm, cancel,
}
use vyapar_ai.Inventory.Balance.{at_same}
use vyapar_ai.Order.Stock.{ordered, change}

-- The demand of an order on a product of business `b`, when the order is one of `business_id`.
abbrev pub demand : ℕ → ℕ → ℕ → List OrderItem → ℤ
demand business_id b q lines = if business_id == b then ordered q lines else pos 0

one_times : (x : ℤ) → pos 1 *ℤ x ≡ x
unfolding ◌*ℤ◌
one_times (pos n) = ground arith
one_times (negsuc n) = ground arith

minus_cancels : (x : ℤ) → negsuc 0 *ℤ x +ℤ x ≡ pos 0
unfolding ◌*ℤ◌ ◌+ℤ◌
minus_cancels (pos n) = ground arith
minus_cancels (negsuc n) = ground arith

pair_cancels : (m x c d : ℤ) → m +ℤ x ≡ pos 0 → c +ℤ d ≡ pos 0 → m +ℤ c +ℤ (x +ℤ d) ≡ pos 0
pair_cancels m x c d h k = omega (int_laws, parts_of_eq h, parts_of_eq k)

zero_left : (x : ℤ) → pos 0 +ℤ x ≡ x
zero_left x = omega int_laws

-- What the lines give back is what they ask for.
pub restored :
    (business_id b q : ℕ) (lines : List OrderItem)
    → change (pos 1) business_id b q lines ≡ demand business_id b q lines
unfolding change ordered
restored business_id b q [] = ground arith
restored business_id b q (item ∷ lines) =
    ap (λ x. at_same b q business_id item.product_id (pos 1 *ℤ item.quantity) +ℤ x)
      (restored business_id b q lines)
    ∙ rw (one_times item.quantity) (by_tests (item.product_id == q) (business_id == b))
  where
    by_tests :
        (same own : Bool)
        → (if same && own then item.quantity else pos 0) +ℤ (if own then ordered q lines else pos 0)
          ≡ (if own then (if same then item.quantity else pos 0) +ℤ ordered q lines else pos 0)
    by_tests true true = refl
    by_tests true false = zero_left (pos 0)
    by_tests false true = refl
    by_tests false false = zero_left (pos 0)

-- What the lines take is what they ask for.
pub taken :
    (business_id b q : ℕ) (lines : List OrderItem)
    → change (negsuc 0) business_id b q lines +ℤ demand business_id b q lines ≡ pos 0
unfolding change ordered
taken business_id b q [] = elim (Bool-cases (business_id == b)) [
  | inl e ↦ rw e (zero_left (pos 0))
  | inr e ↦ rw e (zero_left (pos 0))
]
taken business_id b q (item ∷ lines) =
    by_tests (item.product_id == q) (business_id == b) (taken business_id b q lines)
  where
    by_tests :
        (same own : Bool)
        → change (negsuc 0) business_id b q lines +ℤ (if own then ordered q lines else pos 0)
          ≡ pos 0
        → (if same && own then negsuc 0 *ℤ item.quantity else pos 0)
            +ℤ change (negsuc 0) business_id b q lines
            +ℤ (if own then (if same then item.quantity else pos 0) +ℤ ordered q lines else pos 0)
          ≡ pos 0
    by_tests true true h = pair_cancels _ _ _ _ (minus_cancels item.quantity) h
    by_tests true false h = omega (int_laws, parts_of_eq h)
    by_tests false true h = pair_cancels _ _ _ _ (zero_left (pos 0)) h
    by_tests false false h = omega (int_laws, parts_of_eq h)

pub confirm_rule :
    (status : OrderStatus) {rule : Transition}
    → transitions status confirm ≡ some rule
    → record { to = OrderStatus.confirmed; effect = InventoryEffect.decrement } ≡ rule
unfolding transitions
confirm_rule OrderStatus.created h = cc h
confirm_rule _ h = cc h

pub cancel_rule :
    {rule : Transition}
    → transitions OrderStatus.confirmed cancel ≡ some rule
    → record { to = OrderStatus.cancelled; effect = InventoryEffect.restore } ≡ rule
unfolding transitions
cancel_rule h = cc h

pub undo : (x d n y : ℤ) → d +ℤ n ≡ pos 0 → y ≡ x +ℤ d → y +ℤ n ≡ x
undo x d n y h k = omega (int_laws, parts_of_eq h, parts_of_eq k)
