-- ===== src/Notification/Listener.antt =====
-- app/notification/listener.py: `NotificationEventListener`. The state of the handler is the database
-- as it is committed; each call opens a session of its own on it, and closes it.
use vyapar_ai.Prelude.{ℕ, List, [], ◌∷◌}
use vyapar_ai.Common.Result.{ok}
use vyapar_ai.Common.Bus.{Handler, EventBus, subscribe}
use vyapar_ai.Database.Tables.{Tables}
use vyapar_ai.Database.Session.{Env, session_on}
use vyapar_ai.Notification.{create_from_draft}
use vyapar_ai.Notification.Messages.{mapper}

module _ ⦃env : Env⦄ where
  -- `handle`: whatever the write raises is logged, and the session is closed.
  unfoldable pub handle : Handler Tables
  unfolding create_from_draft mapper
  handle event t = (ok tt, (create_from_draft (mapper event) (session_on t)).1.committed)

  unfoldable register_all : List ℕ → EventBus Tables → EventBus Tables
  unfolding subscribe handle
  register_all [] bus = bus
  register_all (event_type ∷ event_types) bus =
      register_all event_types (subscribe event_type handle bus)

  -- `register`: the handler is subscribed to the six types of `_MAPPERS`.
  unfoldable pub register : EventBus Tables → EventBus Tables
  unfolding register_all
  register = register_all (0 ∷ 1 ∷ 2 ∷ 3 ∷ 4 ∷ 5 ∷ [])
