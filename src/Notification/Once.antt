-- ===== src/Notification/Once.antt =====
-- An occurrence is notified once: the deduplication of app/notification/, for all its events.
use text.Mathlib.TextPositions.{eq_refl}
use vyapar_ai.Prelude.{
  ℕ, ◌≡◌, refl, ap, ◌∙◌, String, Bool, true, false, ◌&&◌, none, List, [], ◌∷◌, ◌++◌, any, ◌==◌,
  str_eq, arith,
}
use vyapar_ai.Prelude.Int.{ℤ}
use vyapar_ai.Common.Event.{
  DomainEvent, low_stock, order_created, order_confirmed, order_cancelled, payment_succeeded,
  payment_failed,
}
use vyapar_ai.Models.Notification.{Notification, same_dedup}
use vyapar_ai.Database.Tables.{Tables, admitted}
use vyapar_ai.Database.Session.{Env}
use vyapar_ai.Notification.Delivery.{stored, has_duplicate, handle-delivers, absorbed, row}
use vyapar_ai.Notification.Messages.{mapper}
use vyapar_ai.Notification.Repository.{row_of, insert_notification}
use vyapar_ai.Notification.Listener.{handle}

-- The second event tells of what the first has told of: a product that is low, whatever is left of it;
-- a step of one order; the end of one payment.
pub data Repeats : DomainEvent → DomainEvent → Type 0 where
  low_again :
      {business_id product_id : ℕ} {quantity threshold later later_threshold : ℤ}
      → Repeats
          (low_stock (record {
            business_id = business_id;
            product_id = product_id;
            quantity = quantity;
            threshold = threshold;
          }))
          (low_stock (record {
            business_id = business_id;
            product_id = product_id;
            quantity = later;
            threshold = later_threshold;
          }))
  created_again :
      {b order_id c d : ℕ} → Repeats (order_created b order_id c) (order_created b order_id d)
  confirmed_again :
      {b order_id c d : ℕ} → Repeats (order_confirmed b order_id c) (order_confirmed b order_id d)
  cancelled_again :
      {b order_id c d : ℕ} → Repeats (order_cancelled b order_id c) (order_cancelled b order_id d)
  succeeded_again :
      {b o p payment_id : ℕ}
      → Repeats (payment_succeeded b o payment_id) (payment_succeeded b p payment_id)
  failed_again :
      {b o p payment_id : ℕ} {code other : String}
      → Repeats (payment_failed b o payment_id code) (payment_failed b p payment_id other)

same : (n : ℕ) → (n == n) ≡ true
same n = ground arith

any-last :
    (p : Notification → Bool) (rows : List Notification) (n : Notification)
    → p n ≡ true
    → any p (rows ++ n ∷ []) ≡ true
unfolding any
any-last p [] n h = rw h refl
any-last p (r ∷ rows) n h = ground (arith, any-last p rows n h)

itself : (n : ℕ) (key : String) → (n == n) && str_eq key key ≡ true
itself n key = rw (same n, eq_refl key) refl

-- The notifications of both have one key.
Repeats-same_dedup :
    {e f : DomainEvent} (key : ℕ)
    → Repeats e f
    → same_dedup (stored e key) (row_of (mapper f)) ≡ true
unfolding mapper
Repeats-same_dedup key (low_again {business_id}) = itself business_id _
Repeats-same_dedup key (created_again {b}) = itself b _
Repeats-same_dedup key (confirmed_again {b}) = itself b _
Repeats-same_dedup key (cancelled_again {b}) = itself b _
Repeats-same_dedup key (succeeded_again {b}) = itself b _
Repeats-same_dedup key (failed_again {b}) = itself b _

-- What has been notified is not notified again: when an event has been delivered, a second event
-- about the same product, order or payment changes no table, whatever quantity, threshold, customer,
-- order or failure code it carries, and however the database answers to it. The first is delivered
-- as in handle-delivers: both of its writes are accepted, its primary key is unused, the business has
-- no notification with its key, and the tables satisfied their constraints.
pub handle_again :
    ⦃env : Env⦄ (later : Env) (e f : DomainEvent) (t : Tables)
    → Repeats e f
    → admitted t ≡ true
    → env.outcome 0 ≡ none
    → env.outcome 1 ≡ none
    → any (λ (n : Notification). n.id == env.next_id 0) t.notifications ≡ false
    → has_duplicate e t ≡ false
    → (handle ⦃env = later⦄ f (handle e t).1).1 ≡ (handle e t).1
handle_again ⦃env⦄ later e f t again valid first second unused news =
    let delivered : (handle e t).1 ≡ insert_notification (row e t) t =
      handle-delivers e t valid first second unused news in
    absorbed ⦃env = later⦄ f (handle e t).1 (
      ap (has_duplicate f) delivered
      ∙ any-last _ t.notifications (row e t) (Repeats-same_dedup (env.next_id 0) again))
