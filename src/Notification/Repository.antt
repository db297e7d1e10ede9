-- ===== src/Notification/Repository.antt =====
-- app/notification/repository.py, and the record `NotificationDraft` of app/notification/messages.py.
-- The column `created_at` is not modelled: rows are listed by the number of their insertion.
use mathlib.Core.List.{reverse}
use vyapar_ai.Prelude.{
  ℕ, zero, suc, String, Bool, true, false, not, ◌&&◌, ◌||◌, Option, none, some, List, [], ◌∷◌, ◌++◌,
  length, ◌==◌, if◌then◌else◌,
}
use vyapar_ai.Common.Result.{ok}
use vyapar_ai.Models.Notification.{Notification, NotificationType}
use vyapar_ai.Models.Rows.{select, one_or_none, order_by, assign}
use vyapar_ai.Database.Tables.{Tables}
use vyapar_ai.Database.Session.{Env, Exec, pure, query, modify, fresh, flush, reload, ◌>>=◌, ◌>>◌}

pub record NotificationDraft : Type 0 where
  pub business_id : ℕ
  pub type : NotificationType
  pub title : String
  pub body : String
  pub related_entity_type : Option String
  pub related_entity_id : Option ℕ
  pub dedup_key : String

-- The row that `create_from_draft` builds, before it has a primary key.
abbrev pub row_of : NotificationDraft → Notification
row_of draft = record {
  id = 0;
  business_id = draft.business_id;
  type = draft.type;
  title = draft.title;
  body = draft.body;
  related_entity_type = draft.related_entity_type;
  related_entity_id = draft.related_entity_id;
  is_read = false;
  read_at = none;
  dedup_key = some draft.dedup_key;
}

unfoldable pub get : ℕ → ℕ → Exec (Option Notification)
get business_id notification_id = query (λ t. one_or_none (
    select (λ (n : Notification). n.id == notification_id && n.business_id == business_id)
      t.notifications))

-- `.limit(n)`
unfoldable pub limit : ℕ → List Notification → List Notification
limit zero rows = []
limit (suc n) [] = []
limit (suc n) (r ∷ rows) = r ∷ limit n rows

-- `order_by(created_at.desc(), id.desc())`: the rows in the order of insertion, by their ids, turned.
unfoldable pub list : ℕ → Bool → ℕ → Exec (List Notification)
unfolding limit
list business_id unread_only n = query (λ t. ok (
    limit n (
      reverse (
        order_by (λ (r : Notification). r.id)
          (select
            (λ (r : Notification).
              r.business_id == business_id && (not unread_only || not r.is_read))
            t.notifications)))))

-- The unread notifications of a business.
abbrev pub is_unread : ℕ → Notification → Bool
is_unread business_id n = n.business_id == business_id && not n.is_read

-- `unread_count`, and the `rowcount` of the update of `mark_all_read`
unfoldable pub count_unread : ℕ → Exec ℕ
count_unread business_id = query (λ t. ok (length (select (is_unread business_id) t.notifications)))

-- `update(Notification).where(...).values(is_read=True, read_at=...)`
unfoldable pub set_read : ℕ → ℕ → List Notification → List Notification
set_read business_id time [] = []
set_read business_id time (n ∷ rows) =
    (if is_unread business_id n then record n { is_read = true; read_at = some time } else n)
    ∷ set_read business_id time rows

abbrev pub read_all : ℕ → ℕ → Tables → Tables
read_all business_id time t = record t { notifications = set_read business_id time t.notifications }

-- The attributes of a loaded row, written by the next flush.
abbrev pub set_notification : Notification → Tables → Tables
set_notification n t = record t {
  notifications = assign (λ (m : Notification). m.id) n t.notifications;
}

abbrev pub insert_notification : Notification → Tables → Tables
insert_notification n t = record t { notifications = t.notifications ++ n ∷ [] }

-- `session.refresh(notification)`
abbrev pub refresh : Notification → Exec Notification
refresh = reload (λ (n : Notification). n.id) (λ t. t.notifications)

module _ ⦃env : Env⦄ where
  unfoldable pub add : Notification → Exec Notification
  unfolding flush
  add notification = do
    key ← fresh
    let row = record notification { id = key }
    modify (insert_notification row)
    flush
    pure row
