-- ===== src/Notification.antt =====
-- app/notification/service.py: `NotificationService`.
pub mod Repository
pub mod Messages
pub mod Listener
pub mod Effects
pub mod Delivery
pub mod Wiring
pub mod Once
use vyapar_ai.Prelude.{ℕ, Bool, true, Option, none, some, List, if◌then◌else◌}
use vyapar_ai.Common.Error.{Error, not_found_error, is_integrity}
use vyapar_ai.Models.Notification.{Notification}
use vyapar_ai.Database.Session.{
  Env, Exec, pure, raise, or_raise, ◌>>=◌, ◌>>◌, catch, modify, rollback, or_rollback, commit, now,
}
use Repository.{
  NotificationDraft, row_of, get, list, count_unread, add, set_notification, read_all, refresh,
}

unfoldable pub get_notification : ℕ → ℕ → Exec Notification
unfolding get
get_notification business_id notification_id = do
  found ← get business_id notification_id
  or_raise found (not_found_error "notification not found")

-- `list_notifications`, with the repository's limit of 50
unfoldable pub list_notifications : ℕ → Bool → Exec (List Notification)
unfolding list
list_notifications business_id unread_only = list business_id unread_only 50

unfoldable pub unread_count : ℕ → Exec ℕ
unfolding count_unread
unread_count business_id = count_unread business_id

-- `except IntegrityError` of `create_from_draft`; nothing else is caught.
abbrev pub recorded : Error → Exec (Option Notification)
recorded e = if is_integrity e then rollback >> pure none else raise e

-- `refresh` of a row that was written, if one was
unfoldable pub reloaded : Option Notification → Exec (Option Notification)
reloaded none = pure none
reloaded (some row) = do notification ← refresh row; pure (some notification)

module _ ⦃env : Env⦄ where
  unfoldable pub create_from_draft : NotificationDraft → Exec (Option Notification)
  unfolding add commit reloaded
  create_from_draft draft = do
    made ← catch (do row ← add (row_of draft); commit; pure (some row)) recorded
    reloaded made

  unfoldable pub mark_read : ℕ → ℕ → Exec Notification
  unfolding get_notification commit
  mark_read business_id notification_id = do
    notification ← get_notification business_id notification_id
    if notification.is_read then pure notification else (do
      time ← now
      let changed = record notification { is_read = true; read_at = some time }
      or_rollback (do modify (set_notification changed); commit)
      refresh changed)

  unfoldable pub mark_all_read : ℕ → Exec ℕ
  unfolding commit count_unread
  mark_all_read business_id = or_rollback (do
    time ← now
    count ← count_unread business_id
    modify (read_all business_id time)
    commit
    pure count)
