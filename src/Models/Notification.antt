-- ===== src/Models/Notification.antt =====
-- app/notification/models.py: notifications.
use vyapar_ai.Prelude.{ℕ, String, Bool, false, ◌&&◌, Option, none, some, List, ◌==◌, str_eq}
use vyapar_ai.Models.Rows.{unique, unique_key}

pub data NotificationType : Type 0 where
  low_stock order_created order_confirmed order_cancelled payment_success payment_failed :
      NotificationType

pub record Notification : Type 0 where
  pub id : ℕ
  pub business_id : ℕ
  pub type : NotificationType
  pub title : String
  pub body : String
  pub related_entity_type : Option String
  pub related_entity_id : Option ℕ
  pub is_read : Bool
  pub read_at : Option ℕ
  pub dedup_key : Option String

-- A key that is there, and is `key`.
abbrev pub has_key : Option String → String → Bool
has_key none key = false
has_key (some k) key = str_eq k key

-- `uq_notification_dedup`
abbrev pub both_keyed : Option String → Option String → Bool
both_keyed none l = false
both_keyed (some k) l = has_key l k

abbrev pub same_dedup : Notification → Notification → Bool
same_dedup m n = m.business_id == n.business_id && both_keyed m.dedup_key n.dedup_key

-- The primary key and the constraint of `Notification.__table_args__`.
unfoldable pub notifications_admitted : List Notification → Bool
unfolding unique unique_key
notifications_admitted rows = unique_key (λ (n : Notification). n.id) rows && unique same_dedup rows
