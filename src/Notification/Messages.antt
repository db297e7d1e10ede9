-- ===== src/Notification/Messages.antt =====
-- app/notification/messages.py: the notification that an event stands for.
use Prim.Native.String.{◌++◌ as str_append}
use vyapar_ai.Prelude.{ℕ, String, some}
use vyapar_ai.Common.Text.{decimal, decimal_ℤ}
use vyapar_ai.Common.Event.{
  LowStock, DomainEvent, low_stock, order_created, order_confirmed, order_cancelled,
  payment_succeeded, payment_failed,
}
use vyapar_ai.Models.Notification.{NotificationType}
use vyapar_ai.Notification.Repository.{NotificationDraft}

-- `f"{before}{n}{after}"`
abbrev around : String → ℕ → String → String
around before n after = str_append before (str_append (decimal n) after)

unfoldable pub from_low_stock : LowStock → NotificationDraft
unfolding decimal decimal_ℤ
from_low_stock event = record {
  business_id = event.business_id;
  type = NotificationType.low_stock;
  title = "Low stock";
  body = str_append (around "Product #" event.product_id " is low: ") (
      str_append (decimal_ℤ event.quantity)
        (str_append " left (threshold " (str_append (decimal_ℤ event.threshold) ").")));
  related_entity_type = some "product";
  related_entity_id = some event.product_id;
  dedup_key = around "LOW_STOCK:" event.product_id "";
}

unfoldable pub from_order_created : ℕ → ℕ → NotificationDraft
unfolding decimal
from_order_created business_id order_id = record {
  business_id = business_id;
  type = NotificationType.order_created;
  title = "Order created";
  body = around "Order #" order_id " was created.";
  related_entity_type = some "order";
  related_entity_id = some order_id;
  dedup_key = around "ORDER_CREATED:" order_id "";
}

unfoldable pub from_order_confirmed : ℕ → ℕ → NotificationDraft
unfolding decimal
from_order_confirmed business_id order_id = record {
  business_id = business_id;
  type = NotificationType.order_confirmed;
  title = "Order confirmed";
  body = around "Order #" order_id " was confirmed.";
  related_entity_type = some "order";
  related_entity_id = some order_id;
  dedup_key = around "ORDER_CONFIRMED:" order_id "";
}

unfoldable pub from_order_cancelled : ℕ → ℕ → NotificationDraft
unfolding decimal
from_order_cancelled business_id order_id = record {
  business_id = business_id;
  type = NotificationType.order_cancelled;
  title = "Order cancelled";
  body = around "Order #" order_id " was cancelled.";
  related_entity_type = some "order";
  related_entity_id = some order_id;
  dedup_key = around "ORDER_CANCELLED:" order_id "";
}

unfoldable pub from_payment_succeeded : ℕ → ℕ → ℕ → NotificationDraft
unfolding decimal
from_payment_succeeded business_id order_id payment_id = record {
  business_id = business_id;
  type = NotificationType.payment_success;
  title = "Payment received";
  body = around "Payment for order #" order_id " succeeded.";
  related_entity_type = some "payment";
  related_entity_id = some payment_id;
  dedup_key = around "PAYMENT_SUCCESS:" payment_id "";
}

unfoldable pub from_payment_failed : ℕ → ℕ → ℕ → String → NotificationDraft
unfolding decimal
from_payment_failed business_id order_id payment_id failure_code = record {
  business_id = business_id;
  type = NotificationType.payment_failed;
  title = "Payment failed";
  body =
      str_append (around "Payment for order #" order_id " failed (") (str_append failure_code ").");
  related_entity_type = some "payment";
  related_entity_id = some payment_id;
  dedup_key = around "PAYMENT_FAILED:" payment_id "";
}

-- `_MAPPERS[type(event)](event)` of app/notification/listener.py, which has every type of event.
unfoldable pub mapper : DomainEvent → NotificationDraft
unfolding from_low_stock from_order_created from_order_confirmed from_order_cancelled
    from_payment_succeeded from_payment_failed
mapper (low_stock event) = from_low_stock event
mapper (order_created business_id order_id customer_id) = from_order_created business_id order_id
mapper (order_confirmed business_id order_id customer_id) =
    from_order_confirmed business_id order_id
mapper (order_cancelled business_id order_id customer_id) =
    from_order_cancelled business_id order_id
mapper (payment_succeeded business_id order_id payment_id) =
    from_payment_succeeded business_id order_id payment_id
mapper (payment_failed business_id order_id payment_id failure_code) =
    from_payment_failed business_id order_id payment_id failure_code
