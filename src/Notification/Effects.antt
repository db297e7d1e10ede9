-- ===== src/Notification/Effects.antt =====
-- What the writes of app/notification/service.py and app/notification/listener.py reach: the
-- notifications, and no other table.
use vyapar_ai.Prelude.{◌≡◌, refl, Option, none, some, []}
use vyapar_ai.Common.Event.{DomainEvent}
use vyapar_ai.Models.Notification.{Notification}
use vyapar_ai.Database.Tables.{Tables}
use vyapar_ai.Database.Session.{Env, session_on}
use vyapar_ai.Database.Leaves.{Leaves, leaves_committed, leaving}
use vyapar_ai.Notification.{create_from_draft, reloaded}
use vyapar_ai.Notification.Repository.{NotificationDraft, add}
use vyapar_ai.Notification.Messages.{mapper}
use vyapar_ai.Notification.Listener.{handle}

-- The tables with the notifications forgotten.
abbrev pub but_notifications : Tables → Tables
but_notifications t = record t { notifications = [] }

reloaded-Leaves : (made : Option Notification) → Leaves but_notifications (reloaded made)
unfolding reloaded
reloaded-Leaves none = search leaving
reloaded-Leaves (some row) = search leaving

module _ ⦃env : Env⦄ where
  add-Leaves : (row : Notification) → Leaves but_notifications (add row)
  unfolding add
  add-Leaves row = search (leaving, refl) depth 20

  create_from_draft-Leaves :
      (draft : NotificationDraft) → Leaves but_notifications (create_from_draft draft)
  unfolding create_from_draft
  create_from_draft-Leaves draft = search (leaving, add-Leaves, reloaded-Leaves) depth 20

  -- The handling of an event changes nothing of the committed tables but the notifications, however
  -- the database answers.
  pub handle-but_notifications :
      (event : DomainEvent) (t : Tables)
      → but_notifications (handle event t).1 ≡ but_notifications t
  unfolding handle
  handle-but_notifications event t =
      leaves_committed (create_from_draft-Leaves (mapper event)) (session_on t) refl
